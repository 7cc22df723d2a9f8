-- ===== src/Replication/Reads.antt =====
-- What `Get` (store.go) returns on any of the nodes.
use hraftd.Common.{
  ℕ, ◌≤◌, length, ◌≡◌, ◌≢◌, refl, sym, ap, ◌∙◌, Bool, true, false, none, some, List, [], ◌∷◌, ◌++◌,
  take, All, Any, Option-cases, inl, inr,
}
use hraftd.Common.Text.{Text, ◌==◌, eq_refl, eq_false}
use hraftd.Model.{Command}
use hraftd.Dealers.{intercept}
use hraftd.Common.Utf8.{IsUtf8}
use hraftd.World.{IsUtf8Command, IsJson, IsClock}
use hraftd.Env.{Env}
use hraftd.Store.State.{op_set, op_delete, cluster_key}
use hraftd.Store.Machine.{get, set_command, delete_command}
use hraftd.Store.Fsm.{PassesOn, set_command-IsUtf8, delete_command-IsUtf8}
use hraftd.Store.Replicas.{command_in}
use hraftd.Replication.{Entry, System, Reach}
use hraftd.Replication.Replay.{
  View, change, effect, replay, replay-append, prefix, effect-passed, effect-taken,
}
use hraftd.Replication.Written.{Sets, replay-some}
use hraftd.Replication.Invariant.{Reach-IsSystem}

module _ (env : Env) where
  -- The entry's command has another key.
  abbrev pub Elsewhere : Text → Entry → Type 0
  Elsewhere k e = (command_in env e.log).key ≢ k

  change-Elsewhere :
      (c : Command) (timely : Bool) (w : View) (k : Text)
      → (c.key == k) ≡ false
      → change c timely w k ≡ w k
  change-Elsewhere c timely w k h = rw (h, change)

  effect-Elsewhere : (e : Entry) (w : View) (k : Text) → Elsewhere k e → effect env e w k ≡ w k
  effect-Elsewhere e w k other =
      let c = command_in env e.log in
      let differs : (c.key == k) ≡ false = eq_false c.key k other in
      elim (Option-cases (intercept env.interceptor env.log_dealers e.log (command_in env e.log))) [
        | inl passed ↦
            effect-passed env e c w k refl passed ∙ change-Elsewhere c e.timely w k differs
        | inr (r, taken) ↦ effect-taken env e c w k r refl taken
      ]

  replay-Elsewhere :
      (es : List Entry) (w : View) (k : Text) → All (Elsewhere k) es → replay env es w k ≡ w k
  replay-Elsewhere [] w k h = refl
  replay-Elsewhere (e ∷ es) w k (h, hs) =
      replay-Elsewhere es (effect env e w) k hs ∙ effect-Elsewhere e w k h

  module _ (json : IsJson env.codecs) (init : ℕ → env.world.State) (s : System env) (i : ℕ) where
    -- In every state that nodes can reach whose clocks decide alike which commands are too old, with
    -- entries applied, snapshots and restarts interleaved in any way, a Get on a node returns what
    -- the committed entries mean up to the number that the node has applied, and no node has applied
    -- more than are committed. So two nodes that have applied as many read the same.
    pub get-replay :
        Reach env init s
        → ((s.replicas i).applied ≤ length s.committed)
          × ((k : Text)
              → get env k (s.replicas i).store ≡ prefix env s.committed (s.replicas i).applied k)
    unfolding get
    get-replay reached =
        let (le, _, view) = ((Reach-IsSystem env json init s reached).1 i).current in (le, view)

    -- A value that a Get returns on a node in a state that can be reached is that of a Set of its key
    -- that is committed, was in time, and was taken by no dealer.
    pub get-Sets :
        (k v : Text)
        → Reach env init s
        → get env k (s.replicas i).store ≡ some v
        → Any (Sets env k v) (take (s.replicas i).applied s.committed)
    get-Sets k v reached h =
        elim (replay-some env (take (s.replicas i).applied s.committed) (λ k. none) k v
          (sym ((get-replay reached).1 k) ∙ h)) [ inl f ↦ cc | inr sets ↦ sets ]

  module _ (json : IsJson env.codecs) (clock : IsClock env.clock) (init : ℕ → env.world.State)
      (s : System env) (i : ℕ) where
    -- What a Get of a key returns where the last entry with that key is a command that is left to the
    -- store.
    get-last :
        (c : Command) (timely : Bool) (before after : List Entry)
        → let e : Entry = record { log = env.codecs.command.encode c; timely = timely } in
          Reach env init s
          → IsUtf8Command c
          → PassesOn env c
          → take (s.replicas i).applied s.committed ≡ before ++ e ∷ after
          → All (Elsewhere c.key) after
          → get env c.key (s.replicas i).store
            ≡ change c timely (replay env before (λ k. none)) c.key
    get-last c timely before after reached texts passes applied others =
        let e : Entry = record { log = env.codecs.command.encode c; timely = timely } in
        let w = replay env before (λ k. none) in
        let is_c : command_in env e.log ≡ c = ap (λ x. x.0) (json.of_command c texts) in
        (get-replay json init s i reached).1 c.key
        ∙ ap (λ l. replay env l (λ k. none) c.key) applied
        ∙ ap (λ v. v c.key) (replay-append env before (e ∷ after) (λ k. none))
        ∙ replay-Elsewhere after (effect env e w) c.key others
        ∙ effect-passed env e c w c.key is_c (passes e.log)

    -- A Set of a key and a value in UTF-8 that is committed, in time and left to the store, is what a Get of its key returns on any
    -- node that has applied it and behind it only entries with other keys, however the node came to
    -- these: one by one, from its own snapshot after a restart, or from another node's.
    pub get-set :
        (key value : Text) (t : ℕ) (before after : List Entry)
        → let e : Entry = record {
          log = env.codecs.command.encode (set_command env key value t);
          timely = true;
        } in
          Reach env init s
          → IsUtf8 key
          → IsUtf8 value
          → key ≢ cluster_key
          → PassesOn env (set_command env key value t)
          → take (s.replicas i).applied s.committed ≡ before ++ e ∷ after
          → All (Elsewhere key) after
          → get env key (s.replicas i).store ≡ some value
    get-set key value t before after reached key_text value_text ordinary passes applied others =
        get-last (set_command env key value t) true before after reached
          (set_command-IsUtf8 env clock key value t key_text value_text) passes applied others
        ∙ rw (eq_refl key, eq_refl op_set, eq_false key cluster_key ordinary) refl

    -- After a Delete of a key in UTF-8 that is committed and left to the store, a Get of its key returns nothing there,
    -- whether its command was in time or not.
    pub get-delete :
        (key : Text) (t : ℕ) (timely : Bool) (before after : List Entry)
        → let e : Entry = record {
          log = env.codecs.command.encode (delete_command env key t);
          timely = timely;
        } in
          Reach env init s
          → IsUtf8 key
          → PassesOn env (delete_command env key t)
          → take (s.replicas i).applied s.committed ≡ before ++ e ∷ after
          → All (Elsewhere key) after
          → get env key (s.replicas i).store ≡ none
    get-delete key t timely before after reached key_text passes applied others =
        get-last (delete_command env key t) timely before after reached
          (delete_command-IsUtf8 env clock key t key_text) passes applied others
        ∙ rw (eq_refl key, eq_false op_delete op_set (cc), eq_refl op_delete) refl
