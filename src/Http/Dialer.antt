-- ===== src/Http/Dialer.antt =====
-- `TimeoutDialer` (proxy.go), which the reverse proxy's transport dials with. Times and durations are
-- signed numbers of nanoseconds.
use hraftd.Common.{Option, none, some, if◌then◌else◌}
use hraftd.Common.Int.{ℤ, pos, ◌+ℤ◌, ltb_ℤ}
use hraftd.Common.Text.{Text}

-- net.DialTimeout, Conn.SetDeadline and time.Now; what comes with an error is whatever the call
-- returns.
pub record Dialing : Type 1 where
  pub State : Type 0
  pub Conn : Type 0
  pub dial_timeout : Text → Text → ℤ → State → (Conn × Option Text) × State
  pub set_deadline : Conn → ℤ → State → Option Text × State
  pub now : State → ℤ

module _ (net : Dialing) where
  -- Dialer, without its context, which is not read
  abbrev pub Dialer : Type 0
  Dialer = Text → Text → net.State → (net.Conn × Option Text) × net.State

  -- the connection that TimeoutDialer's function has
  unfoldable pub with_deadline :
      ℤ → (net.Conn × Option Text) × net.State → (net.Conn × Option Text) × net.State
  with_deadline rw_timeout ((conn, some e), s) = ((conn, some e), s)
  with_deadline rw_timeout ((conn, none), s) =
      if ltb_ℤ (pos 0) rw_timeout
      then (let (e, s') = net.set_deadline conn (net.now s +ℤ rw_timeout) s in ((conn, e), s'))
      else ((conn, none), s)

  -- TimeoutDialer
  unfoldable pub timeout_dialer : (c_timeout rw_timeout : ℤ) → Dialer
  timeout_dialer c_timeout rw_timeout network addr s =
      with_deadline rw_timeout (net.dial_timeout network addr c_timeout s)
