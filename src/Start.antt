-- ===== src/Start.antt =====
-- How a node starts (service.go): `Create`, `StartAll`, `StartRaft`, `GoStartHTTP` and `Close`. The
-- goroutine that joins the cluster is a loop over its attempts; what it and other goroutines do to
-- the surroundings while the main one waits is in the events that the waiting loops are given.
pub mod Retry
pub mod Seen
pub mod Returns
pub mod Channel
use hraftd.Common.{ℕ, zero, suc, Bool, true, false, Option, none, some, List, [], ◌∷◌}
use hraftd.Common.Text.{Text}
use hraftd.Common.Result.{Result, ok, err, ◌>>=?◌}
use hraftd.Dealers.{DealerMap}
use hraftd.Args.Fixing.{Arg, Machine, convert_to_zero_host}
use hraftd.Env.{Env}
use hraftd.Remote.{arg_join}
use hraftd.Store.Opening.{Opening, open_store}
use hraftd.Store.Waiting.{Event, wait_for_leader, wait_for_applied}

-- Service, without its store and its Arg: its listener, the one place of LeaderCh, and the dealers.
pub record Service (Listener Request Value : Type 0) : Type 0 where
  pub ln : Option Listener
  pub leader_ch : Option Bool
  pub dealers : DealerMap Request Value

-- LeaderCh <- leaderChanged with its default: what does not fit is dropped
unfoldable pub offer : Option Bool → Bool → Option Bool
offer none leader_changed = some leader_changed
offer (some waiting) leader_changed = some waiting

-- the loop of Service.listenLeaderCh, on what comes through raft's channel while nobody reads
unfoldable pub listen_leader_ch : List Bool → Option Bool → Option Bool
listen_leader_ch [] leader_ch = leader_ch
listen_leader_ch (leader_changed ∷ changes) leader_ch =
    listen_leader_ch changes (offer leader_ch leader_changed)

-- net.Listen and the Close of what it returns
pub record Listening (State : Type 0) : Type 1 where
  pub Listener : Type 0
  pub listen : Text → State → Result Listener × State
  pub close : Listener → State → Option Text × State

module _ (env : Env) where
  open env use {world, Request, Value}

  abbrev pub ServiceOn : Type 0 → Type 0
  ServiceOn Listener = Service Listener Request Value

  -- Create, behind New; `none` is the panic where the store does not open
  unfoldable pub create :
      {Listener : Type 0}
      → Opening env.world
      → Arg
      → world.State
      → Option (ServiceOn Listener × world.State)
  create o a s =
      let (e, s') = open_store env o a s in
      elim e [
        | some _ ↦ none
        | none ↦ some (record { ln = none; leader_ch = none; dealers = [] }, s')
      ]

  module _ (net : Listening env.world.State) (m : Machine) where
    -- what GoStartHTTP does with the listener
    unfoldable pub listened :
        ServiceOn net.Listener
        → Result net.Listener × world.State
        → Option Text × (ServiceOn net.Listener × world.State)
    listened service (err e, s) = (some e, (record service { ln = none }, s))
    listened service (ok ln, s) = (none, (record service { ln = some ln }, s))

    -- Service.GoStartHTTP, up to the start of its goroutine
    unfoldable pub go_start_http :
        Arg
        → ServiceOn net.Listener
        → world.State
        → Option Text × (ServiceOn net.Listener × world.State)
    go_start_http a service s =
        listened service (net.listen (convert_to_zero_host m a a.http_addr) s)

    -- Service.Close; `none` is the panic of a service that does not listen
    unfoldable pub close_service :
        ServiceOn net.Listener → world.State → Option (Option Text × world.State)
    close_service service s = elim service.ln [ none ↦ none | some ln ↦ some (net.close ln s) ]

  -- the loop of StartRaft's goroutine, for so many attempts: how many of them failed before the one
  -- that succeeds, if one does. `sleep` is what happens in the ten seconds between two.
  module _ (a : Arg) (sleep : env.world.State → env.world.State) where
    unfoldable pub join_loop : ℕ → world.State → Option ℕ × world.State
    join_loop zero s = (none, s)
    join_loop (suc attempts) s =
        let (e, s1) = arg_join env a.bootstrap a.join_addrs a.join_addr_slice s in
        elim e [
          | none ↦ (some 0, s1)
          | some _ ↦
              (let (failed, s2) = join_loop attempts (sleep s1) in
                (elim failed [ none ↦ none | some n ↦ some (suc n) ], s2))
        ]

  abbrev wait_timeout : ℕ
  wait_timeout = 100_000_000_000

  -- Service.StartRaft, behind its goroutines, by what happens while it waits: for a leader, and for
  -- the log to be applied. Both results are dropped; `none` is a loop that still waits.
  unfoldable pub start_raft :
      (elections applications : List (Event world.State))
      → world.State
      → Option (Option Text × world.State)
  start_raft elections applications s = wait_for_leader env elections s >>=? λ (leader, s1).
      wait_for_applied env wait_timeout applications s1 >>=? λ (applied, s2). some (none, s2)

  -- Service.StartAll, behind its test of the logger
  unfoldable pub start_all :
      (net : Listening env.world.State)
      → Machine
      → Arg
      → (elections applications : List (Event world.State)) → ServiceOn net.Listener
      → world.State
      → Option (Option Text × (ServiceOn net.Listener × world.State))
  start_all net m a elections applications service s =
      let (e, (service', s')) = go_start_http net m a service s in
      elim e [
        | some e ↦ some (some e, (service', s'))
        | none ↦ start_raft elections applications s' >>=? λ (result, s'').
            some (result, (service', s''))
      ]
