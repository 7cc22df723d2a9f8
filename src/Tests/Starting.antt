-- ===== src/Tests/Starting.antt =====
-- Nodes that start on the small world, whose state also holds what was bootstrapped.
use hraftd.Common.{
  ℕ, ◌≡◌, ◌≤◌, refl, true, false, none, some, List, [], ◌∷◌, ◌++◌, suc, ltb, if◌then◌else◌,
}
use hraftd.Common.Text.{Text, lit, ◌==◌}
use hraftd.Common.Result.{ok, err}
use hraftd.Args.Fixing.{Arg, Machine, convert_to_zero_host}
use hraftd.Args.Flags.{made_arg}
use hraftd.World.{Server, voter, World}
use hraftd.Env.{Env}
use hraftd.Remote.{
  arg_join, join_first, join, joined, check_joined, cluster_of, get_json, post_json, has_server,
}
use hraftd.Args.{is_local_host, any_local, parse_ips}
use hraftd.Address.{host_of, port_of, split_host_port, cut_last, contains, split_at, plain}
use hraftd.Model.{RaftCluster, no_peer}
use hraftd.Tests.Packing.{packing}
use hraftd.Store.Opening.{
  Opening, path_exists, file_stores, create_stores, transport_at, create_transport, open_started,
  open_transport, open_stores, peer_file_exits, open_store,
}
use hraftd.Store.Opened.{IsNoted, open_store-Notes}
use hraftd.Start.{ServiceOn, Listening, listened, go_start_http}
use hraftd.Start.Seen.{Seen}
use hraftd.Start.Retry.{IsFirst, attempt, before, join_loop-IsFirst}
use hraftd.Tests.Sample.{sample, quiet}

-- The state is the list of configurations that were bootstrapped.
abbrev pub noting : World
noting = quiet (List (List Server))

abbrev pub node : Env
node = record sample { world = noting }

abbrev pub opening : Opening noting
opening = record {
  Stores = Unit {0};
  LogStore = Unit {0};
  SnapshotStore = Unit {0};
  TcpAddr = Unit {0};
  Transport = Unit {0};
  join_path = λ ps. [];
  mkdir_all = λ p s. s;
  lstat = λ p s. some true;
  inmem_stores = λ s. (tt, s);
  new_bolt_store = λ p s. (ok tt, s);
  new_file_snapshot_store = λ p n s. (ok tt, s);
  on_disk = λ db ss. tt;
  resolve_tcp_addr = λ a s. (ok tt, s);
  new_tcp_transport = λ a t s. (ok tt, s);
  local_addr = λ t. lit "10.0.0.1:12000";
  new_raft = λ id stores t s. (none, s);
  bootstrap_cluster = λ c s. s ++ c ∷ [];
}

abbrev as_noted : List (List Server) → List (List Server)
as_noted s = s

opening-IsNoted : IsNoted opening as_noted
opening-IsNoted = record {
  of_mkdir = λ p s. refl;
  of_inmem = λ s. refl;
  of_bolt = λ p s. refl;
  of_snapshots = λ p n s. refl;
  of_resolve = λ p s. refl;
  of_transport = λ p a s. refl;
  of_raft = λ id stores t s. refl;
  of_bootstrap = λ c s. refl;
  of_get = λ url s. refl;
  of_post = λ url body s. refl;
}

abbrev starter : Arg
starter = record made_arg { bootstrap = true; in_mem = false; node_id = lit "n" }

open_store-Notes_example :
    (address : Text) × ((open_store node opening starter []).1
      ≡ (record { suffrage = voter; id = lit "n"; address = address } ∷ []) ∷ [])
unfolding open_store peer_file_exits open_stores create_stores file_stores open_transport
    create_transport transport_at open_started path_exists
open_store-Notes_example = open_store-Notes node opening opening-IsNoted starter []

-- The state is the number of times that the node has slept; the other node is there after the first.
abbrev members : RaftCluster
members = record {
  current = no_peer;
  leader = no_peer;
  servers = record { address = []; id = sample.node_id; state = []; suffrage = [] } ∷ [];
}

abbrev late : World
late = record (quiet ℕ) {
  http_get = λ url s. (ok (packing.cluster.encode members), s);
  http_post = λ url body s. (
    if ltb 0 s
        then ok (200, packing.rsp.encode (record { success = true; msg = []; payload = [] }))
        else err (lit "refused"),
    s,
  );
}

abbrev joiner : Env
joiner = record sample { world = late }

abbrev patient : Arg
patient = record made_arg {
  join_addrs = lit "10.0.0.2:11000";
  join_addr_slice = lit "10.0.0.2:11000" ∷ [];
}

joined_second : (attempt joiner patient suc (before joiner patient suc 1 0)).0 ≡ none
unfolding arg_join join_first join joined check_joined cluster_of get_json post_json has_server ◌==◌
joined_second = refl

join_loop-IsFirst_example :
    (failed : ℕ) × (failed ≤ 1)
    × IsFirst joiner patient suc failed 0
    × (patient.bootstrap ≡ false
        → Seen joiner patient.join_addr_slice
            (before joiner patient suc failed 0)
            (attempt joiner patient suc (before joiner patient suc failed 0)).1)
join_loop-IsFirst_example = join_loop-IsFirst joiner patient suc 1 0 joined_second

abbrev pub net : Listening (List (List Server))
net = record { Listener = Text; listen = λ addr s. (ok addr, s); close = λ ln s. (none, s) }

abbrev pub here : Machine
here = record {
  net = record { parse_ip = λ s. true; lookup_ip = λ s. err [] };
  main_ip = λ iface. lit "10.0.0.1";
  home_dir = none;
  join_path = λ ps. [];
}

abbrev idle : ServiceOn node Text
idle = record { ln = none; leader_ch = none; dealers = [] }

abbrev serving : Arg
serving = record made_arg { http_addr = lit "10.0.0.1:11000"; host_ip = lit "10.0.0.1" }

-- It listens at every address of its host.
listens : (go_start_http node net here serving idle []).1.0.ln ≡ some (lit ":11000")
unfolding go_start_http listened convert_to_zero_host is_local_host any_local parse_ips host_of
    port_of split_host_port cut_last contains split_at plain ◌==◌
listens = refl
