-- ===== src/Replication/Progress.antt =====
-- A node that lags behind can catch up: `Apply` (store.go) on the entries that it lacks.
use hraftd.Common.{ℕ, ◌+◌, ◌≤◌, ◌≡◌, none, some, List, length, get_elem?, Option-cases, inl, inr}
use hraftd.Common.Text.{Text}
use hraftd.Model.{Command}
use hraftd.Dealers.{Reply, nil, Log, intercept}
use hraftd.World.{WithError}
use hraftd.Env.{Env}
use hraftd.Store.State.{Store}
use hraftd.Store.Machine.{is_fresh, apply_command, apply_read, apply}
use hraftd.Store.Replicas.{command_in, apply_read-passed, apply_read-taken}
use hraftd.Replication.{Entry, Replica, System, Reach}

module _ (env : Env) where
  -- The entry is a command, and at this time it is decided as it says whether it is in time.
  abbrev pub IsProper : ℕ → Entry → Type 0
  IsProper now e =
      ((env.codecs.command.decode e.log).1 ≡ none)
      × (is_fresh env now (command_in env e.log) ≡ e.timely)

  -- The entries that a node lacks are such, at the time that its clock shows. So it is not where a Set
  -- that was in time has become too old for the node meanwhile.
  abbrev pub LacksProper : List Entry → Replica env → Type 0
  LacksProper es r =
      (n : ℕ) (e : Entry) → r.applied ≤ n → get_elem? es n ≡ some e → IsProper r.clock e

  apply_read-returns :
      (now : ℕ) (l : Log) (c : WithError Command) (s : Store env)
      → c.1 ≡ none
      → (r : Reply env.Value) × (s' : Store env) × (apply_read env now l c s ≡ some (r, s'))
  apply_read-returns now l (c, some e) s h = cc
  apply_read-returns now l (c, none) s h =
      elim (Option-cases (intercept env.interceptor env.log_dealers l c)) [
        | inl passed ↦ (nil, apply_command env now c s, apply_read-passed env now l c s passed)
        | inr (r, taken) ↦ (r, s, apply_read-taken env now l c s r taken)
      ]

  -- An entry that is a command is applied without a panic.
  pub apply-returns :
      (now : ℕ) (l : Log) (s : Store env)
      → (env.codecs.command.decode l).1 ≡ none
      → (r : Reply env.Value) × (s' : Store env) × (apply env now l s ≡ some (r, s'))
  unfolding apply
  apply-returns now l s h = apply_read-returns now l (env.codecs.command.decode l) s h

  module _ (init : ℕ → env.world.State) (i : ℕ) (es : List Entry) where
    abbrev Behind : ℕ → System env → Type 0
    Behind d s =
        Reach env init s
        × (s.committed ≡ es)
        × ((s.replicas i).applied + d ≡ length es)
        × LacksProper es (s.replicas i)
