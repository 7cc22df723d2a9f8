-- ===== src/Demo/Leading.antt =====
-- Losing the leadership twice.
use hraftd.Common.{
  ℕ, suc, ◌+◌, ◌≤◌, ◌≡◌, ◌↔◌, refl, Bool, true, false, none, some, List, [], ◌∷◌, Option, ap, ◌∙◌,
  arith, ltb, Bool-cases, inl, inr,
}
use hraftd.Start.Channel.{Told, Told-taken, Sublist, empty, drops, keeps}
use hraftd.Demo.{Ticking, stop_async, leader_changing}

-- How often a list tells that the leadership was won, and that it was lost.
abbrev pub wins : List Bool → ℕ
wins [] = 0
wins (true ∷ leaders) = suc (wins leaders)
wins (false ∷ leaders) = wins leaders

abbrev pub losses : List Bool → ℕ
losses [] = 0
losses (true ∷ leaders) = losses leaders
losses (false ∷ leaders) = suc (losses leaders)

abbrev pub fresh : Ticking
fresh = record { started = 0; stop_closed = false }

-- A ticker that was started so often, and the channel that stops it.
abbrev at : ℕ → Bool → Ticking
at n closed = record { started = n; stop_closed = closed }

once_more : (n m : ℕ) (closed : Bool) → at (suc n + m) closed ≡ at (n + suc m) closed
once_more n m closed = ap (λ k. at k closed) (omega arith)

run_closed :
    (leaders : List Bool) (n : ℕ)
    → (1 ≤ losses leaders → leader_changing leaders (at n true) ≡ none)
      × (losses leaders ≡ 0
          → leader_changing leaders (at n true) ≡ some (at (n + wins leaders) true))
unfolding leader_changing stop_async
run_closed [] n = (λ h. absurd (omega arith), λ h. ap (λ k. some (at k true)) (omega arith))
run_closed (true ∷ leaders) n =
    let (panics, runs) = run_closed leaders (suc n) in
    (panics, λ h. runs h ∙ ap some (once_more n (wins leaders) true))
run_closed (false ∷ leaders) n = (λ h. refl, λ h. absurd (omega arith))

run_open :
    (leaders : List Bool) (n : ℕ)
    → (2 ≤ losses leaders → leader_changing leaders (at n false) ≡ none)
      × (losses leaders ≤ 1
          → leader_changing leaders (at n false)
            ≡ some (at (n + wins leaders) (ltb 0 (losses leaders))))
unfolding leader_changing stop_async
run_open [] n = (λ h. absurd (omega arith), λ h. ap (λ k. some (at k false)) (omega arith))
run_open (true ∷ leaders) n =
    let (panics, runs) = run_open leaders (suc n) in
    (panics, λ h. runs h ∙ ap some (once_more n (wins leaders) (ltb 0 (losses leaders))))
run_open (false ∷ leaders) n =
    let (panics, runs) = run_closed leaders n in
    (
      λ h. panics (omega arith),
      λ h. runs (omega arith) ∙ ap (λ b. some (at (n + wins leaders) b)) (ground arith),
    )

-- The demo's loop over the changes of leadership panics exactly where the node loses the leadership
-- twice, in whatever order it wins and loses it: the second `StopAsync` closes a closed channel. Up
-- to one loss, it has started the ticker once for each time that the node became the leader, and the
-- channel that stops it is closed exactly if there was a loss.
pub leader_changing-twice :
    (leaders : List Bool)
    → ((leader_changing leaders fresh ≡ none) ↔ (2 ≤ losses leaders))
      × (losses leaders ≤ 1
          → leader_changing leaders fresh
            ≡ some (record { started = wins leaders; stop_closed = ltb 0 (losses leaders) }))
leader_changing-twice leaders =
    let (panics, runs) = run_open leaders 0 in
    let once : losses leaders ≤ 1
        → leader_changing leaders fresh ≡ some (at (wins leaders) (ltb 0 (losses leaders))) =
      λ h. runs h ∙ ap (λ k. some (at k (ltb 0 (losses leaders)))) (omega arith) in
    (
      (
        λ e. elim (Bool-cases (ltb 1 (losses leaders))) [
          | inl many ↦ ground arith
          | inr few ↦ ground (arith, once)
        ],
        panics,
      ),
      once,
    )

losses-Sublist : {xs ys : List Bool} → Sublist xs ys → losses xs ≤ losses ys
losses-Sublist empty = omega arith
losses-Sublist (drops {x = true} h) = losses-Sublist h
losses-Sublist (drops {x = false} h) = omega (arith, losses-Sublist h)
losses-Sublist (keeps {x = true} h) = losses-Sublist h
losses-Sublist (keeps {x = false} h) = omega (arith, losses-Sublist h)

-- A demo that has panicked, at whatever pace it reads LeaderCh, runs on a node that raft has told at
-- least twice that it lost the leadership.
pub leader_changing-Told :
    {changes taken : List Bool} {ch : Option Bool}
    → Told changes taken ch
    → leader_changing taken fresh ≡ none
    → 2 ≤ losses changes
leader_changing-Told {taken = taken} told panics =
    omega (arith, (leader_changing-twice taken).0.0 panics, losses-Sublist (Told-taken told))
