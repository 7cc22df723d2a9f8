-- ===== src/Ticker/Rounds.antt =====
-- What a started ticker has done.
use hraftd.Common.{
  ℕ, zero, suc, ◌≡◌, refl, ap, ◌∙◌, Bool, true, false, Option, none, some, List, [], ◌∷◌,
  if◌then◌else◌,
}
use hraftd.Ticker.{
  Ticker, non_nil, new_ticker, start_async, exec_fns, returned, Running, start, Reach, started,
  ticked, stopped, ended,
}

-- the rounds after so many ticks, the one at the start included
abbrev pub count : Bool → ℕ → ℕ
count true n = suc n
count false n = n

module _ {S : Type 0} where
  -- All functions once, from the first to the last: a missing one does nothing.
  abbrev pub all_once : List (Option (S → S)) → S → S
  all_once [] s = s
  all_once (none ∷ fns) s = all_once fns s
  all_once (some fn ∷ fns) s = all_once fns (fn s)

  -- So many times over.
  abbrev pub rounds : List (Option (S → S)) → ℕ → S → S
  rounds fns zero s = s
  rounds fns (suc n) s = all_once fns (rounds fns n s)

  exec_fns-non_nil :
      (fns : List (Option (S → S))) (s : S) → exec_fns (non_nil fns) s ≡ all_once fns s
  unfolding exec_fns non_nil
  exec_fns-non_nil [] s = refl
  exec_fns-non_nil (none ∷ fns) s = exec_fns-non_nil fns s
  exec_fns-non_nil (some fn ∷ fns) s = exec_fns-non_nil fns (fn s)

  -- the functions of a start, or else those of the ticker
  abbrev pub chosen : List (Option (S → S)) → List (Option (S → S)) → List (Option (S → S))
  chosen [] first = first
  chosen (fn ∷ later) first = fn ∷ later

  first_round :
      (instantly : Bool) (fns : List (Option (S → S))) (s : S)
      → (if instantly then exec_fns (non_nil fns) s else s) ≡ rounds fns (count instantly 0) s
  first_round true fns s = exec_fns-non_nil fns s
  first_round false fns s = refl

  next_round :
      (instantly : Bool) (fns : List (Option (S → S))) (n : ℕ) (s : S)
      → exec_fns (non_nil fns) (rounds fns (count instantly n) s)
        ≡ rounds fns (count instantly (suc n)) s
  next_round true fns n s = exec_fns-non_nil fns _
  next_round false fns n s = exec_fns-non_nil fns _

  -- the ticker with these functions
  abbrev with_fns : Bool → List (Option (S → S)) → Ticker S
  with_fns instantly fns = record { ticker_fn = non_nil fns; start_instantly = instantly }

  Reach-rounds :
      (instantly : Bool) (fns : List (Option (S → S))) (s : S) {n : ℕ} {r : Running S}
      → Reach (with_fns instantly fns) s n r
      → (r.state ≡ rounds fns (count instantly n) s) × (r.phase ≡ returned → r.stop_closed ≡ true)
  Reach-rounds instantly fns s started = unfold start in (first_round instantly fns s, λ e. cc)
  Reach-rounds instantly fns s (ticked {n} {r} reach h) =
      let (same, only) = Reach-rounds instantly fns s reach in
      (ap (exec_fns (non_nil fns)) same ∙ next_round instantly fns n s, only)
  Reach-rounds instantly fns s (stopped reach h) =
      ((Reach-rounds instantly fns s reach).0, λ e. refl)
  Reach-rounds instantly fns s (ended reach h closed) =
      ((Reach-rounds instantly fns s reach).0, λ e. closed)

  start_async-fns :
      (instantly : Bool) (first later : List (Option (S → S)))
      → start_async later (new_ticker instantly first) ≡ with_fns instantly (chosen later first)
  unfolding start_async new_ticker
  start_async-fns instantly first [] = refl
  start_async-fns instantly first (fn ∷ later) = refl

  -- A started ticker has called its functions that are not nil, all of them in order, once for each
  -- tick that it has taken, and once more if it starts instantly: those of the start, if there are
  -- any, and else those that it was made with. It ends only once it is stopped.
  pub started-rounds :
      (instantly : Bool) (first later : List (Option (S → S))) (s : S) (n : ℕ) (r : Running S)
      → Reach (start_async later (new_ticker instantly first)) s n r
      → (r.state ≡ rounds (chosen later first) (count instantly n) s)
        × (r.phase ≡ returned → r.stop_closed ≡ true)
  started-rounds instantly first later s n r reach =
      Reach-rounds instantly (chosen later first) s
        (rw (start_async-fns instantly first later) at reach)
