-- ===== src/Start/Retry.antt =====
-- The attempts to join a cluster: the loop of StartRaft's goroutine.
use hraftd.Common.{
  ℕ, zero, suc, ◌≤◌, ◌<◌, ◌≡◌, refl, ap, false, Option, none, some, arith, Option-cases, inl, inr,
}
use hraftd.Common.Text.{Text}
use hraftd.Args.Fixing.{Arg}
use hraftd.Env.{Env}
use hraftd.Remote.{arg_join}
use hraftd.Start.{join_loop}
use hraftd.Start.Seen.{Seen, joining}

module _ (env : Env) where
  open env use {world}

  module _ (a : Arg) (sleep : world.State → world.State) where
    abbrev pub attempt : world.State → Option Text × world.State
    attempt s = arg_join env a.bootstrap a.join_addrs a.join_addr_slice s

    -- the surroundings in front of the attempt, after so many that failed
    abbrev pub before : ℕ → world.State → world.State
    before zero s = s
    before (suc n) s = before n (sleep (attempt s).1)

    -- That the first attempt to succeed is the one after so many, and the loop ends with it.
    pub record IsFirst (failed : ℕ) (s : world.State) : Type 0 where
      pub succeeds : (attempt (before failed s)).0 ≡ none
      pub returns :
          (attempts : ℕ)
          → failed < attempts
          → join_loop env a sleep attempts s ≡ (some failed, (attempt (before failed s)).1)

    now_returns :
        (s : world.State)
        → (attempt s).0 ≡ none
        → (attempts : ℕ) → 0 < attempts
        → join_loop env a sleep attempts s ≡ (some 0, (attempt s).1)
    unfolding join_loop
    now_returns s h zero k = absurd (omega arith)
    now_returns s h (suc attempts) k = rw (h, join_loop) refl

    later_returns :
        (why : Text) (failed : ℕ) (s : world.State)
        → (attempt s).0 ≡ some why
        → IsFirst failed (sleep (attempt s).1)
        → (attempts : ℕ) → suc failed < attempts
        → join_loop env a sleep attempts s
          ≡ (some (suc failed), (attempt (before (suc failed) s)).1)
    unfolding join_loop
    later_returns why failed s h f zero k = absurd (omega arith)
    later_returns why failed s h f (suc attempts) k =
        rw (h, join_loop)
          (ap (λ x. (elim x.0 [ none ↦ none | some n ↦ some (suc n) ], x.1))
            (f.returns attempts (omega arith)))

    first :
        (k : ℕ) (s : world.State)
        → (attempt (before k s)).0 ≡ none
        → (failed : ℕ) × (failed ≤ k) × IsFirst failed s
    first zero s h = (0, omega arith, record { succeeds = h; returns = now_returns s h })
    first (suc k) s h = elim (Option-cases (attempt s).0) [
      | inl good ↦ (0, omega arith, record { succeeds = good; returns = now_returns s good })
      | inr (why, bad) ↦
          let (failed, le, f) = first k (sleep (attempt s).1) h in
          (
            suc failed,
            omega arith,
            record { succeeds = f.succeeds; returns = later_returns why failed s bad f },
          )
    ]

    -- If some attempt to join succeeds, the goroutine of StartRaft ends with the first that does,
    -- having failed just as often as there were attempts before. In that attempt a node that does not
    -- bootstrap has posted its request to one of the addresses to join, after those before it in vain,
    -- was answered with success, and behind that was answered with a cluster that has the node among
    -- its servers.
    pub join_loop-IsFirst :
        (k : ℕ) (s : world.State)
        → (attempt (before k s)).0 ≡ none
        → (failed : ℕ) × (failed ≤ k)
          × IsFirst failed s
          × (a.bootstrap ≡ false
              → Seen env a.join_addr_slice (before failed s) (attempt (before failed s)).1)
    join_loop-IsFirst k s h =
        let (failed, le, f) = first k s h in
        (failed, le, f, λ joins. joining env _ _ a.bootstrap (before failed s) joins f.succeeds)
