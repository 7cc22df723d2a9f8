-- ===== src/Store/Waits.antt =====
-- What the waiting loops return, and that they do.
use hraftd.Common.{
  ℕ, ◌≤◌, ◌<◌, ◌≡◌, ◌≢◌, refl, Option, none, some, List, [], ◌∷◌, arith, inl, inr, ◌⊎◌, Bool-cases,
  eqb, leb,
}
use hraftd.Common.Text.{Text, ◌==◌, eq_iff}
use hraftd.Common.Result.{Result, ok, err}
use hraftd.Env.{Env}
use hraftd.Store.Waiting.{
  Event, tick, expired, leader_timeout, err_open_timeout, join_nodes_from_leader, wait_for_leader,
  wait_for_applied_index, wait_for_applied, open_error,
}

-- The time ends within these events.
abbrev pub Ends : {S : Type 0} → List (Event S) → Type 0
Ends [] = ⊥
Ends (expired ∷ es) = Unit
Ends (tick change ∷ es) = Ends es

module _ (env : Env) where
  open env use {world}

  -- What WaitForLeader may return.
  abbrev pub LeaderResult : Option (Result Text × world.State) → Type 0
  LeaderResult none = ⊥
  LeaderResult (some (ok addr, s)) = (addr ≢ []) × (world.leader_addr s ≡ addr)
  LeaderResult (some (err e, s)) = e ≡ leader_timeout

  -- WaitForLeader returns, once its time ends or before: an address that is not empty, which is the
  -- leader's in the surroundings that it leaves, or the error of the timeout.
  pub wait_for_leader-Ends :
      (es : List (Event world.State)) (s : world.State)
      → Ends es
      → LeaderResult (wait_for_leader env es s)
  unfolding wait_for_leader
  wait_for_leader-Ends [] s h = elim h [ ]
  wait_for_leader-Ends (expired ∷ es) s h = refl
  wait_for_leader-Ends (tick change ∷ es) s h =
      let ih = wait_for_leader-Ends es (join_nodes_from_leader env (change s)) h in
      elim (Bool-cases (world.leader_addr (change s) == [])) [
        | inl nobody ↦ rw (nobody, wait_for_leader) ih
        | inr leads ↦
            rw (leads, wait_for_leader)
              ((λ e. ground (arith, eq_iff (world.leader_addr (change s)) [])), refl)
      ]

  -- No tick before the end of the time finds the entries applied, and the surroundings are then these.
  abbrev pub Behind : ℕ → List (Event world.State) → world.State → world.State → Type 0
  Behind idx [] s s' = ⊥
  Behind idx (expired ∷ es) s s' = s' ≡ s
  Behind idx (tick change ∷ es) s s' =
      (world.applied_index (change s) < idx) × Behind idx es (change s) s'

  -- The first tick that finds the entries applied leaves these surroundings, and the time has not
  -- ended before it.
  abbrev pub Caught : ℕ → List (Event world.State) → world.State → world.State → Type 0
  Caught idx [] s s' = ⊥
  Caught idx (expired ∷ es) s s' = ⊥
  Caught idx (tick change ∷ es) s s' =
      ((idx ≤ world.applied_index (change s)) × (s' ≡ change s))
      ⊎ ((world.applied_index (change s) < idx) × Caught idx es (change s) s')

  -- What waiting for an index may return.
  abbrev pub IndexResult :
      ℕ → List (Event world.State) → world.State → Option (Option Text × world.State) → Type 0
  IndexResult idx es s none = ⊥
  IndexResult idx es s (some (none, s')) = Caught idx es s s'
  IndexResult idx es s (some (some e, s')) = Behind idx es s s'

  later-IndexResult :
      (idx : ℕ) (change : world.State → world.State) (es : List (Event world.State))
      (s : world.State) (r : Option (Option Text × world.State))
      → world.applied_index (change s) < idx
      → IndexResult idx es (change s) r
      → IndexResult idx (tick change ∷ es) s r
  later-IndexResult idx change es s none h k = k
  later-IndexResult idx change es s (some (none, s')) h k = inr (h, k)
  later-IndexResult idx change es s (some (some e, s')) h k = (h, k)

  index-Ends :
      (idx : ℕ) (es : List (Event world.State)) (s : world.State)
      → Ends es
      → IndexResult idx es s (wait_for_applied_index env idx es s)
  unfolding wait_for_applied_index
  index-Ends idx [] s h = elim h [ ]
  index-Ends idx (expired ∷ es) s h = refl
  index-Ends idx (tick change ∷ es) s h =
      let ih = index-Ends idx es (change s) h in
      elim (Bool-cases (leb idx (world.applied_index (change s)))) [
        | inl there ↦ rw (there, wait_for_applied_index) (inl (ground arith, refl))
        | inr missing ↦
            later-IndexResult idx change es s _ (ground arith)
              (rw (missing, wait_for_applied_index) ih)
      ]

  -- What WaitForApplied may return, with the index that the log had at its start.
  abbrev pub AppliedResult :
      ℕ → ℕ → List (Event world.State) → world.State → Option (Option Text × world.State) → Type 0
  AppliedResult timeout idx es s none = ⊥
  AppliedResult timeout idx es s (some (none, s')) =
      ((timeout ≡ 0) × (s' ≡ s)) ⊎ ((timeout ≢ 0) × Caught idx es s s')
  AppliedResult timeout idx es s (some (some e, s')) =
      (timeout ≢ 0) × (e ≡ err_open_timeout) × Behind idx es s s'

  open_error-AppliedResult :
      (timeout idx : ℕ) (es : List (Event world.State)) (s : world.State)
      (r : Option (Option Text × world.State))
      → timeout ≢ 0
      → IndexResult idx es s r
      → AppliedResult timeout idx es s (open_error env r)
  open_error-AppliedResult timeout idx es s none some_time h = h
  open_error-AppliedResult timeout idx es s (some (none, s')) some_time h = inr (some_time, h)
  open_error-AppliedResult timeout idx es s (some (some e, s')) some_time h = (some_time, refl, h)

  -- WaitForApplied returns, once its time ends or before. If the time is zero, it returns at once and
  -- without an error. If not, it returns without an error at the first tick that finds the entries
  -- applied that the log held at the start, and with ErrOpenTimeout exactly if the time ends before
  -- such a tick.
  pub wait_for_applied-Ends :
      (timeout : ℕ) (es : List (Event world.State)) (s : world.State)
      → (timeout ≢ 0 → Ends es)
      → AppliedResult timeout (world.last_index s) es s (wait_for_applied env timeout es s)
  unfolding wait_for_applied
  wait_for_applied-Ends timeout es s h = elim (Bool-cases (eqb timeout 0)) [
    | inl nought ↦ rw (nought, wait_for_applied) (inl (ground arith, refl))
    | inr some_time ↦
        let some_time' : timeout ≢ 0 = λ e. ground arith in
        rw (some_time, wait_for_applied)
          (open_error-AppliedResult timeout (world.last_index s) es s _ some_time'
            (index-Ends (world.last_index s) es s (h some_time')))
  ]
