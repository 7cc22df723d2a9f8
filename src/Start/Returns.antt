-- ===== src/Start/Returns.antt =====
-- That a start returns: `StartRaft` and `StartAll`.
use hraftd.Common.{ℕ, ◌≡◌, refl, Option, none, some, List, Option-cases, inl, inr}
use hraftd.Common.Text.{Text}
use hraftd.Common.Result.{Result, ok, err}
use hraftd.Args.Fixing.{Arg, Machine}
use hraftd.Env.{Env}
use hraftd.Store.Waiting.{Event}
use hraftd.Store.Waits.{
  Ends, LeaderResult, AppliedResult, wait_for_leader-Ends, wait_for_applied-Ends,
}
use hraftd.Start.{ServiceOn, Listening, go_start_http, start_raft, start_all}

module _ (env : Env) where
  open env use {world}

  -- both waits return, whatever they do
  applied_returns :
      (timeout idx : ℕ) (es : List (Event world.State)) (at : world.State)
      (r : Option (Option Text × world.State))
      → AppliedResult env timeout idx es at r
      → (e : Option Text) × (s : world.State) × (r ≡ some (e, s))
  applied_returns timeout idx es at none h = elim h [ ]
  applied_returns timeout idx es at (some (none, s)) h = (none, s, refl)
  applied_returns timeout idx es at (some (some e, s)) h = (some e, s, refl)

  leader_returns :
      (r : Option (Result Text × world.State))
      → LeaderResult env r
      → (l : Result Text) × (s : world.State) × (r ≡ some (l, s))
  leader_returns none h = elim h [ ]
  leader_returns (some (ok addr, s)) h = (ok addr, s, refl)
  leader_returns (some (err e, s)) h = (err e, s, refl)

  start_raft-Ends :
      (elections applications : List (Event world.State)) (s : world.State)
      → Ends elections
      → Ends applications
      → (s' : world.State) × (start_raft env elections applications s ≡ some (none, s'))
  unfolding start_raft
  start_raft-Ends elections applications s h k =
      let (l, s1, led) = leader_returns _ (wait_for_leader-Ends env elections s h) in
      let (e, s2, applied) =
        applied_returns _ _ _ _ _
          (wait_for_applied-Ends env 100_000_000_000 applications s1 (λ e. k)) in
      (s2, rw (led, start_raft) (rw applied refl))

  -- StartAll returns once the times to wait end, and its error is that of listening for HTTP, if that
  -- fails: a node that has found no leader by then, or has not applied its log, starts all the same.
  -- Its listener is the one that it was given.
  pub start_all-Ends :
      (net : Listening env.world.State) (m : Machine) (a : Arg)
      (elections applications : List (Event world.State)) (service : ServiceOn env net.Listener)
      (s : world.State)
      → Ends elections
      → Ends applications
      → (s' : world.State) × (start_all env net m a elections applications service s
          ≡ some (
            (go_start_http env net m a service s).0,
            ((go_start_http env net m a service s).1.0, s'),
          ))
  unfolding start_all
  start_all-Ends net m a elections applications service s h k =
      let (e, (service', s1)) = go_start_http env net m a service s in
      elim (Option-cases e) [
        | inr (why, fails) ↦ (s1, rw (fails, start_all) refl)
        | inl listens ↦
            let (s2, runs) = start_raft-Ends elections applications s1 h k in
            (s2, rw (listens, start_all) (rw runs refl))
      ]
