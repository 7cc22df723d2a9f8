-- ===== src/Demo/Main.antt =====
-- `main` of cmd/hraftd/main.go: from the flags to a node that runs, with its dealers. What the flags
-- are set to, how JSON is read, and what comes through LeaderCh, are parameters; what is printed is
-- left out. The goroutine that follows the leadership is `leader_changing`, in the parent.
use hraftd.Common.{Bool, true, false, Option, none, some, List, [], ◌∷◌}
use hraftd.Common.Text.{Text, lit}
use hraftd.Common.Result.{Result, ok, err}
use hraftd.Address.{NodeId}
use hraftd.Args.Fixing.{Arg, Machine, fix_arg}
use hraftd.Args.Flags.{FlagNames, FlagProvider, define_flags}
use hraftd.Model.{Command}
use hraftd.Dealers.{
  DealerError, failed, Dealer, function, DealerMap, Log, register_job_dealer, register_log_dealer,
  make_dealer_map,
}
use hraftd.World.{WithError}
use hraftd.Env.{Env}
use hraftd.Store.Opening.{Opening}
use hraftd.Store.Waiting.{Event}
use hraftd.Start.{Service, Listening, create, start_all}
use hraftd.Demo.{Ticking, leader_changing, JobReq, DemoRsp, my_job, RigConfItem, rig_conf, me_items}

-- What the demo's dealers are asked: one function takes items, the other one a job.
pub data DemoRequest : Type 0 where
  items : List RigConfItem → DemoRequest
  job : JobReq → DemoRequest

-- How requests are read from JSON.
pub record Reading : Type 0 where
  pub read_items : Text → Result (List RigConfItem)
  pub read_job : Text → Result JobReq

abbrev pub read_as : {A : Type 0} → (A → DemoRequest) → Result A → Result DemoRequest
read_as request (err e) = err e
read_as request (ok v) = ok (request v)

abbrev pub answered : WithError DemoRsp → Option DemoRsp × Option DealerError
answered (rsp, none) = (some rsp, none)
answered (rsp, some e) = (some rsp, some (failed e))

-- the function that main registers for "rigconf"; the items that it keeps are printed
unfoldable pub deal_items : NodeId → List RigConfItem → Option DemoRsp × Option DealerError
deal_items node is = elim (me_items node is) [ [] ↦ (none, none) | _ ∷ _ ↦ (none, none) ]

-- the ApplyInterceptor: it prints the command
abbrev pub demo_interceptor : Log → Command → Bool
demo_interceptor l c = false

module _ (read : Reading) where
  abbrev pub items_dealer : NodeId → Dealer DemoRequest DemoRsp
  items_dealer node = record {
    decode = λ body. read_as items (read.read_items body);
    call = λ req. elim req [ items is ↦ deal_items node is | job _ ↦ (none, none) ];
  }

  abbrev pub job_dealer : Dealer DemoRequest DemoRsp
  job_dealer = record {
    decode = λ body. read_as job (read.read_job body);
    call = λ req. elim req [ items _ ↦ (none, none) | job r ↦ answered (my_job r) ];
  }

  -- what RegisterLogDealer leaves in the Arg
  abbrev pub demo_log_dealers : NodeId → DealerMap DemoRequest DemoRsp
  demo_log_dealers node =
      (register_log_dealer rig_conf (function 1 2 true (items_dealer node)) make_dealer_map).1

  -- the dealers of the Service, once the job's is registered
  abbrev pub demo_job_dealers : DealerMap DemoRequest DemoRsp
  demo_job_dealers =
      (register_job_dealer (lit "/myjob") (function 1 2 true job_dealer) make_dealer_map).1

  module _ (base : Env) where
    open base use {world}

    -- a node that runs the demo
    abbrev pub demo_env : Arg → DealerMap DemoRequest DemoRsp → Env
    demo_env a dealers = record {
      Request = DemoRequest;
      Value = DemoRsp;
      codecs = base.codecs;
      clock = base.clock;
      world = world;
      interceptor = some demo_interceptor;
      log_dealers = demo_log_dealers a.node_id;
      dealers = dealers;
      node_id = a.node_id;
      Json = base.Json;
      parse_json = base.parse_json;
      read_bytes = base.read_bytes;
      hostname = base.hostname;
      main_ip = base.main_ip;
      start_time = base.start_time;
      raft_addr = a.raft_addr;
    }

    module _ (m : Machine) (o : Opening world) (net : Listening world.State) where
      abbrev pub DemoService : Type 0
      DemoService = Service net.Listener DemoRequest DemoRsp

      -- How `main` goes on. The program ends where the flags cannot be defined or read, where `Fix`
      -- panics, the store does not open, the job's dealer is refused, HTTP cannot be listened to, or
      -- the goroutine that follows the leadership panics. Else it waits in `StartAll`, or has started
      -- successfully, with what the goroutine has done to its ticker by then.
      pub data Launch : Type 0 where
        flags_clash flags_refused fix_panics store_panics leader_panics waits : Launch
        dealer_refused http_refused : Text → Launch
        started : Arg → DemoService → world.State → Ticking → Launch

      -- main from the statement `go leaderChanging(arg, h)` on: the goroutine has come so far, or has
      -- panicked, by the time that StartAll returns
      abbrev pub started_all :
          Arg → Option Ticking → Option (Option Text × (DemoService × world.State)) → Launch
      started_all a none r = leader_panics
      started_all a (some t) none = waits
      started_all a (some t) (some (some e, _)) = http_refused e
      started_all a (some t) (some (none, (service, s))) = started a service s t

      -- `leaders` is what leaderChanging reads from LeaderCh until StartAll returns.
      module _ (elections applications : List (Event world.State)) (leaders : List Bool) where
        -- main behind RegisterJobDealer
        abbrev pub registered :
            Arg → DemoService → world.State → Option Text × DealerMap DemoRequest DemoRsp → Launch
        registered a service s (some e, dealers) = dealer_refused e
        registered a service s (none, dealers) =
            started_all a (leader_changing leaders (record { started = 0; stop_closed = false })) (
              start_all (demo_env a []) net m a elections applications
                (record service { dealers = dealers }) s)

        -- main behind Fix
        unfoldable pub launch : world.State → Option Arg → Launch
        launch s none = fix_panics
        launch s (some a) = elim (create (demo_env a []) {Listener = net.Listener} o a s) [
          | none ↦ store_panics
          | some (service, s') ↦
              registered a service s'
                (register_job_dealer (lit "/myjob") (function 1 2 true job_dealer) service.dealers)
        ]

        -- main: `parse` is pflag.Parse, which ends the program on flags that it does not know
        unfoldable pub main :
            (p : FlagProvider)
            → (FlagNames → FlagNames)
            → (parse : p.State → Arg → Option Arg) → p.State
            → world.State
            → Launch
        main p set_defaults parse flags s = elim (define_flags p set_defaults [] flags) [
          | none ↦ flags_clash
          | some (flags', arg) ↦ elim (parse flags' arg) [
            | none ↦ flags_refused
            | some a ↦ launch s (fix_arg m a)
          ]
        ]
