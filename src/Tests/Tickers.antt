-- ===== src/Tests/Tickers.antt =====
-- A ticker that is stopped after one tick.
use hraftd.Common.{ℕ, ◌+◌, ◌*◌, ◌≡◌, refl, true, Option, none, some, List, [], ◌∷◌}
use hraftd.Ticker.{
  Ticker, Running, Reach, started, ticked, stopped, ended, returned, non_nil, new_ticker,
  start_async, start, exec_fns,
}
use hraftd.Ticker.Rounds.{rounds, chosen, count, started-rounds}

abbrev fns : List (Option (ℕ → ℕ))
fns = some (λ n. n + 1) ∷ none ∷ some (λ n. n * 10) ∷ []

abbrev ticker : Ticker ℕ
ticker = start_async [] (new_ticker true fns)

abbrev at_end : Running ℕ
at_end = record { phase = returned; stop_closed = true; state = 210 }

one_tick : Reach ticker 1 1 at_end
unfolding non_nil new_ticker start_async start exec_fns
one_tick = ended (stopped (ticked started refl) refl) refl refl

started-rounds_example :
    (at_end.state ≡ rounds (chosen [] fns) (count true 1) 1)
    × (at_end.phase ≡ returned → at_end.stop_closed ≡ true)
started-rounds_example = started-rounds true fns [] 1 1 at_end one_tick
