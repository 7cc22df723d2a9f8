-- ===== src/Ticker.antt =====
-- ticker.go: functions called at a ticker's ticks, in a goroutine, until the ticker is stopped. The
-- functions act on a state `S`. The goroutine is a step relation; when both a tick and the closed
-- channel are there, either may be taken, as with Go's `select`. A second StartAsync of one ticker,
-- which races with the goroutine of the first, is left out; a second StopAsync panics and is no step.
pub mod Rounds
use hraftd.Common.{ℕ, suc, ◌≡◌, Bool, true, false, Option, none, some, List, [], ◌∷◌, if◌then◌else◌}

-- Ticker, its duration left out
pub record Ticker (S : Type 0) : Type 0 where
  pub ticker_fn : List (S → S)
  pub start_instantly : Bool

module _ {S : Type 0} where
  -- the functions that are not nil
  unfoldable pub non_nil : List (Option (S → S)) → List (S → S)
  non_nil [] = []
  non_nil (none ∷ fns) = non_nil fns
  non_nil (some fn ∷ fns) = fn ∷ non_nil fns

  -- NewTicker
  unfoldable pub new_ticker : Bool → List (Option (S → S)) → Ticker S
  new_ticker start_instantly fns = record {
    ticker_fn = non_nil fns;
    start_instantly = start_instantly;
  }

  -- Ticker.StartAsync, up to the start of the goroutine
  unfoldable pub start_async : List (Option (S → S)) → Ticker S → Ticker S
  start_async [] j = j
  start_async (fn ∷ fns) j = record j { ticker_fn = non_nil (fn ∷ fns) }

  -- Ticker.execFns
  unfoldable pub exec_fns : List (S → S) → S → S
  exec_fns [] s = s
  exec_fns (fn ∷ fns) s = exec_fns fns (fn s)

-- where the goroutine is: in front of the select, or at its end
pub data Phase : Type 0 where
  waiting returned : Phase

pub record Running (S : Type 0) : Type 0 where
  pub phase : Phase
  pub stop_closed : Bool
  pub state : S

module _ {S : Type 0} (j : Ticker S) where
  -- Ticker.start up to its loop
  unfoldable pub start : S → Running S
  start s = record {
    phase = waiting;
    stop_closed = false;
    state = if j.start_instantly then exec_fns j.ticker_fn s else s;
  }

  -- A run with so many ticks taken: the cases of the select, and StopAsync from elsewhere.
  pub data Reach (s : S) : ℕ → Running S → Type 0 where
    started : Reach s 0 (start s)
    ticked :
        {n : ℕ} {r : Running S}
        → Reach s n r
        → r.phase ≡ waiting
        → Reach s (suc n) (record r { state = exec_fns j.ticker_fn r.state })
    stopped :
        {n : ℕ} {r : Running S}
        → Reach s n r
        → r.stop_closed ≡ false
        → Reach s n (record r { stop_closed = true })
    ended :
        {n : ℕ} {r : Running S}
        → Reach s n r
        → r.phase ≡ waiting
        → r.stop_closed ≡ true
        → Reach s n (record r { phase = returned })
