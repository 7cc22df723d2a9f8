-- ===== src/Tests/Launching.antt =====
-- A demo that starts, what its dealers do, and what its reader of LeaderCh is told.
use hraftd.Common.{◌≡◌, ◌≢◌, refl, Bool, true, false, Option, none, some, List, [], ◌∷◌}
use hraftd.Common.Text.{lit, ◌==◌, split}
use hraftd.Common.Result.{ok}
use hraftd.Args.Fixing.{
  Arg, fix_addr, parse_flag_raft_node_id, parse_flag_raft_dir, join_slice, boots, parse_bootstrap,
  fix_arg, convert_to_zero_host,
}
use hraftd.Args.{is_local_host, any_local, parse_ips}
use hraftd.Address.{
  fix, raft_addr, port_of, split_host_port, cut_last, http_addr, contains, split_at, plain, host_of,
}
use hraftd.Args.Flags.{
  FlagProvider, default_names, made_arg, applied, create_flag_names, bool_var, str_var,
  define_flags,
}
use hraftd.Common.Map.{lookup, insert}
use hraftd.Dealers.{intercept, invoke, taken, register_job_dealer, check_dealer_fn, Log, nil, Reply}
use hraftd.World.{Server}
use hraftd.Store.Waiting.{expired}
use hraftd.Store.Opening.{
  path_exists, file_stores, create_stores, transport_at, create_transport, open_started,
  open_transport, open_stores, peer_file_exits, open_store,
}
use hraftd.Store.Waiting.{wait_for_leader, wait_for_applied, wait_for_applied_index}
use hraftd.Start.{create, start_all, start_raft, listened, go_start_http, offer, listen_leader_ch}
use hraftd.Start.Channel.{Told, begun, offered, takes, Sublist, waiting, listen_leader_ch-Sublist}
use hraftd.Model.{Command}
use hraftd.Env.{Env}
use hraftd.Store.State.{Store, format_time}
use hraftd.Store.Machine.{set_command, apply_command, apply}
use hraftd.Tests.Packing.{packing-IsJson}
use hraftd.Demo.Entries.{apply-demo}
use hraftd.Demo.{DemoRsp, rig_conf, leader_changing, stop_async}
use hraftd.Demo.Leading.{fresh}
use hraftd.Demo.Main.{Reading, demo_env, demo_job_dealers, started, launch, main, DemoService}
use hraftd.Demo.Running.{IsOutcome, main-IsOutcome}
use hraftd.Tests.Starting.{node, opening, net, here}

launching : Unit {0}
unfolding ◌==◌ listened go_start_http path_exists file_stores create_stores transport_at
    create_transport open_started open_transport open_stores peer_file_exits open_store fix_addr
    parse_flag_raft_node_id parse_flag_raft_dir join_slice boots parse_bootstrap fix_arg applied
    create_flag_names bool_var str_var define_flags offer listen_leader_ch leader_changing
    stop_async fix raft_addr split port_of split_host_port cut_last http_addr contains split_at
    plain convert_to_zero_host is_local_host any_local parse_ips host_of intercept invoke lookup
    insert taken register_job_dealer check_dealer_fn
launching = tt

abbrev reading : Reading
reading = record { read_items = λ s. ok []; read_job = λ s. ok (record { id = s }) }

-- Flags that are defined without an error, and none of which is set on the command line.
abbrev flags : FlagProvider
flags = record {
  State = Unit {0};
  bool_var = λ ptr name value s. some s;
  string_var = λ ptr name value s. some s;
}

abbrev defaults : Arg
defaults = record made_arg { in_mem = true }

abbrev parse : Unit {0} → Arg → Option Arg
parse s a = some defaults

abbrev alone : Arg
alone = record defaults {
  host_ip = lit "10.0.0.1";
  raft_addr = lit "10.0.0.1:12000";
  http_addr = lit "10.0.0.1:11000";
  node_id = lit "10.0.0.1:11000,10.0.0.1:12000";
  bootstrap = true;
}

fixed : fix_arg here defaults ≡ some alone
unfolding launching
fixed = refl

-- The node becomes the leader while it starts.
main-IsOutcome_example :
    IsOutcome reading node here opening net
      (expired ∷ [])
      (expired ∷ [])
      (true ∷ [])
      flags
      (λ f. default_names)
      parse
      tt
      []
      (main reading node here opening net
        (expired ∷ [])
        (expired ∷ [])
        (true ∷ [])
        flags
        (λ f. default_names)
        parse
        tt
        [])
main-IsOutcome_example =
    main-IsOutcome reading node here opening net (expired ∷ []) (expired ∷ []) (true ∷ []) flags
      (λ f. default_names) parse tt [] tt tt

-- It has started, and its ticker once.
main_started :
    (running : DemoService reading node here opening net) × (s : List (List Server)) × (main reading
        node here opening net
        (expired ∷ [])
        (expired ∷ [])
        (true ∷ [])
        flags
        (λ f. default_names)
        parse
        tt
        []
      ≡ started alone running s (record { started = 1; stop_closed = false }))
unfolding launching main launch create start_all start_raft wait_for_leader wait_for_applied
    wait_for_applied_index
main_started = (_, _, refl)

-- An entry of the demo's leader.
abbrev items_command : Command
items_command = set_command node rig_conf (lit "[]") 0

abbrev items_entry : Log
items_entry = node.codecs.command.encode items_command

abbrev worker : Env
worker = demo_env reading node alone (demo_job_dealers reading)

abbrev empty_store : Store worker
empty_store = record { kv = []; state = [] }

apply-demo_example :
    (rig_conf ≡ rig_conf
      → (reply : Reply DemoRsp) × (apply worker 0 items_entry empty_store
          ≡ some (reply, empty_store)))
    × (rig_conf ≢ rig_conf
        → apply worker 0 items_entry empty_store
          ≡ some (nil, apply_command worker 0 items_command empty_store))
unfolding format_time
apply-demo_example =
    apply-demo reading node alone (demo_job_dealers reading) 0 items_entry items_command empty_store
      (packing-IsJson.of_command items_command (refl, refl, refl, refl))

-- The node loses and wins the leadership while nobody reads.
late_reader : Told (true ∷ []) [] (some true)
unfolding offer
late_reader = offered true begun

listen_leader_ch-Sublist_example :
    Sublist (waiting (listen_leader_ch (false ∷ true ∷ []) (some true))) (true ∷ false ∷ true ∷ [])
    × ((b : Bool)
        → ◌≡◌ {A = Option Bool} (some true) (some b)
        → listen_leader_ch (false ∷ true ∷ []) (some true) ≡ some b)
listen_leader_ch-Sublist_example = listen_leader_ch-Sublist (false ∷ true ∷ []) late_reader

-- It loses it twice, and the reader keeps up.
prompt_reader : Told (false ∷ false ∷ []) (false ∷ false ∷ []) none
unfolding offer
prompt_reader = takes (offered false (takes (offered false begun)))

lost_both : leader_changing (false ∷ false ∷ []) fresh ≡ none
unfolding leader_changing stop_async
lost_both = refl
