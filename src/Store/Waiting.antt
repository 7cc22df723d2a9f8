-- ===== src/Store/Waiting.antt =====
-- The waiting loops of store.go: `WaitForLeader`, `WaitForApplied` and `WaitForAppliedIndex`. What the
-- loop's `select` finds is a list of events: a tick, with what has happened in the surroundings since
-- the one before, or the end of the time. `none` is a loop that still waits when the list is over.
use hraftd.Common.{ℕ, true, false, Option, none, some, List, [], ◌∷◌, eqb, leb, if◌then◌else◌}
use hraftd.Common.Text.{Text, lit, ◌==◌}
use hraftd.Common.Result.{Result, ok, err}
use hraftd.Env.{Env}
use hraftd.Remote.{try_find_and_join_leader}
use hraftd.Store.Leader.{cluster}

pub data Event (S : Type 0) : Type 0 where
  tick : (S → S) → Event S
  expired : Event S

abbrev pub leader_timeout : Text
leader_timeout = lit "WaitForLeader timeout expired"

abbrev pub timeout_expired : Text
timeout_expired = lit "timeout expired"

-- ErrOpenTimeout
abbrev pub err_open_timeout : Text
err_open_timeout = lit "timeout waiting for initial logs application"

module _ (env : Env) where
  open env use {world}

  -- RaftStore.joinNodesFromLeader
  unfoldable pub join_nodes_from_leader : world.State → world.State
  join_nodes_from_leader s =
      let (r, s') = cluster env s in
      elim r.1 [ some _ ↦ s' | none ↦ try_find_and_join_leader env r.0 s' ]

  -- RaftStore.WaitForLeader
  unfoldable pub wait_for_leader :
      List (Event world.State) → world.State → Option (Result Text × world.State)
  wait_for_leader [] s = none
  wait_for_leader (expired ∷ es) s = some (err leader_timeout, s)
  wait_for_leader (tick change ∷ es) s = elim (world.leader_addr (change s) == []) [
    | false ↦ some (ok (world.leader_addr (change s)), change s)
    | true ↦ wait_for_leader es (join_nodes_from_leader (change s))
  ]

  -- RaftStore.WaitForAppliedIndex
  unfoldable pub wait_for_applied_index :
      ℕ → List (Event world.State) → world.State → Option (Option Text × world.State)
  wait_for_applied_index idx [] s = none
  wait_for_applied_index idx (expired ∷ es) s = some (some timeout_expired, s)
  wait_for_applied_index idx (tick change ∷ es) s =
      elim (leb idx (world.applied_index (change s))) [
        | true ↦ some (none, change s)
        | false ↦ wait_for_applied_index idx es (change s)
      ]

  -- the error of WaitForAppliedIndex, replaced
  abbrev pub open_error : Option (Option Text × world.State) → Option (Option Text × world.State)
  open_error none = none
  open_error (some (none, s)) = some (none, s)
  open_error (some (some e, s)) = some (some err_open_timeout, s)

  -- RaftStore.WaitForApplied
  unfoldable pub wait_for_applied :
      (timeout : ℕ) → List (Event world.State) → world.State → Option (Option Text × world.State)
  wait_for_applied timeout es s =
      if eqb timeout 0
      then some (none, s)
      else open_error (wait_for_applied_index (world.last_index s) es s)
