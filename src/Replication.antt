-- ===== src/Replication.antt =====
-- Several nodes that replicate one log, each with a `RaftStore` (store.go) as its state machine. What
-- raft does with it is its documented contract: entries are committed in one order, each replica is
-- given the committed entries one after the other, snapshots are taken between two entries and
-- persisted later, and a replica that starts again, or that lags behind, restores a snapshot and goes
-- on behind it.
pub mod Replay
pub mod Written
pub mod Invariant
pub mod Reads
pub mod Progress
pub mod Served
pub mod Deleted
use hraftd.Common.{
  ℕ, zero, suc, ◌≤◌, ◌≡◌, Bool, Option, none, some, List, [], ◌∷◌, ◌++◌, get_elem?, eqb,
  if◌then◌else◌,
}
use hraftd.Common.Text.{Text}
use hraftd.Common.Map.{Map}
use hraftd.Dealers.{Reply, Log}
use hraftd.World.{IsUtf8Command}
use hraftd.Env.{Env}
use hraftd.Store.State.{Store}
use hraftd.Store.Machine.{is_fresh, apply, snapshot, restore}
use hraftd.Store.Interface.{new_store}
use hraftd.Store.Replicas.{command_in}

-- A committed entry, and whether the replicas that apply it find that its command is in time.
pub record Entry : Type 0 where
  pub log : Log
  pub timely : Bool

module _ (env : Env) where
  -- A node's clock, its store, the number of entries that it has applied, and what it has of snapshots: one that
  -- `Snapshot` has returned and `Persist` not yet written, and one that is written, each with the
  -- number of entries before it.
  pub record Replica : Type 0 where
    pub clock : ℕ
    pub applied : ℕ
    pub store : Store env
    pub pending : Option (ℕ × Map Text)
    pub saved : Option (ℕ × Text)

  pub record System : Type 0 where
    pub committed : List Entry
    pub replicas : ℕ → Replica

  abbrev pub new_replica : ℕ → env.world.State → Replica
  new_replica clock s = record {
    clock = clock;
    applied = 0;
    store = new_store env s;
    pending = none;
    saved = none;
  }

  -- The node starts again: its map is empty, and raft restores the snapshot that was written, if there
  -- is one.
  abbrev pub restarted : env.world.State → Replica → Replica
  restarted s r = elim r.saved [
    | none ↦ new_replica r.clock s
    | some (n, content) ↦ record {
      clock = r.clock;
      applied = n;
      store = (restore env content (new_store env s)).1;
      pending = none;
      saved = r.saved;
    }
  ]

  -- A node is sent another one's snapshot.
  abbrev pub installed : ℕ → Text → Replica → Replica
  installed n content r = record {
    clock = r.clock;
    applied = n;
    store = (restore env content r.store).1;
    pending = r.pending;
    saved = some (n, content);
  }

  abbrev pub put : System → ℕ → Replica → System
  put s i r = record s { replicas = λ j. if eqb i j then r else s.replicas j }

  -- What can happen to one replica, by the committed entries and the snapshots of the others. Its
  -- clock goes on, and an entry is applied at the time that it shows.
  pub data Move (s : System) (r : Replica) : Replica → Type 0 where
    applies :
        (e : Entry) (reply : Reply env.Value) (store : Store env)
        → get_elem? s.committed r.applied ≡ some e
        → is_fresh env r.clock (command_in env e.log) ≡ e.timely
        → apply env r.clock e.log r.store ≡ some (reply, store)
        → Move s r (record r { applied = suc r.applied; store = store })
    ticks : (later : ℕ) → r.clock ≤ later → Move s r (record r { clock = later })
    snapshots : Move s r (record r { pending = some (r.applied, snapshot env r.store) })
    persists :
        (n : ℕ) (m : Map Text)
        → r.pending ≡ some (n, m)
        → Move s r (record r { pending = none; saved = some (n, env.codecs.text_map.encode m) })
    restarts : (state : env.world.State) → Move s r (restarted state r)
    installs :
        (j n : ℕ) (content : Text)
        → (s.replicas j).saved ≡ some (n, content)
        → Move s r (installed n content r)
    elsewhere :
        (state : env.world.State) → Move s r (record r { store = record r.store { state = state } })

  -- The texts of the entry's command are UTF-8, as those are that are read from JSON in UTF-8.
  abbrev pub HasText : Entry → Type 0
  HasText e = IsUtf8Command (command_in env e.log)

  pub data Reach (init : ℕ → env.world.State) : System → Type 0 where
    begun : Reach init (record { committed = []; replicas = λ i. new_replica 0 (init i) })
    commits :
        {s : System} (e : Entry)
        → HasText e
        → Reach init s
        → Reach init (record s { committed = s.committed ++ e ∷ [] })
    moves :
        {s : System} {r : Replica} (i : ℕ)
        → Reach init s
        → Move s (s.replicas i) r
        → Reach init (put s i r)
