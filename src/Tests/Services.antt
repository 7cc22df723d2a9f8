-- ===== src/Tests/Services.antt =====
-- The HTTP service on the small world.
use hraftd.Common.{ℕ, ◌≡◌, ◌≢◌, ◌⊎◌, refl, false, Option, none, some, List, [], ◌∷◌, ◌++◌, map, All}
use hraftd.Common.Text.{Text, lit, ◌==◌, has_prefix, trim_prefix, split}
use hraftd.Common.Result.{Result, ok}
use hraftd.Common.Map.{Map, Distinct, lookup}
use hraftd.Address.{
  key_path, contains, cut_first, cut_last, split_host_port, after_bracket, bracketed, plain,
  split_at, host_of, port_of, fix, raft_addr, http_addr, empty_then, equals_then,
}
use hraftd.Http.{HttpRequest, director}
use hraftd.Model.{JoinRequest, fix_request}
use hraftd.World.{Server, voter}
use hraftd.Store.State.{Store}
use hraftd.Store.Machine.{set_command, set, apply}
use hraftd.Store.Membership.{
  walk, take_out, visit, walk_raft_servers, finish_join, after_adding, join_node,
}
use hraftd.Store.PeersFile.{write_config_entries, write_peers_json}
use hraftd.Store.Joined.{IsJoined}
use hraftd.Store.Leader.{cluster, see_server, note_leader, note_current, ask_unknown, or_lost}
use hraftd.Store.Clusters.{HasState, key_of, key_of_peer, cluster-servers}
use hraftd.Service.Answers.{
  no_response, done, refused, answer_rsp, decode_body, write, write_header, W,
}
use hraftd.Service.Keys.{slash, rsp_ok, do_key_post}
use hraftd.Service.Rafts.{
  no_join_request, origin, save_seen, save_cluster, after_join, join_read, handle_join,
}
use hraftd.Service.Forward.{forward_to_leader}
use hraftd.Service.Routes.{serve_http}
use hraftd.Service.Once.{forward_to_leader-once}
use hraftd.Service.Posts.{AllSet, Stopped, shown, do_key_post-Posted, serve_http-get}
use hraftd.Service.Joins.{handle_join-IsJoined}
use hraftd.Service.Shown.{IsOrdinary}
use hraftd.Dealers.{nil, Log}
use hraftd.Service.Saved.{save_cluster-unseen}
use hraftd.Common.Utf8.{IsUtf8}
use hraftd.Tests.Packing.{packing, packing-IsJson}
use hraftd.Tests.Sample.{sample, one_server, one_server-IsRaft, utc-IsClock}
use hraftd.Tests.Stores.{passes}

abbrev now : Option Server → ℕ
now s = 1_000_000_000_000

abbrev old_server : Server
old_server = record { suffrage = voter; id = lit "a"; address = lit "10.0.0.2:12000" }

abbrev pub request : Text → Text → Result Text → HttpRequest
request method path body = record {
  method = method;
  scheme = [];
  url_host = [];
  path = path;
  url = path;
  host = lit "10.0.0.1:11000";
  remote_addr = lit "10.0.0.2:999";
  header = [];
  body = body;
}

abbrev pub get_foo : HttpRequest
get_foo = request (lit "GET") (key_path ++ slash ++ lit "foo") (ok [])

pub not_empty : lit "foo" ≢ []
not_empty e = cc

serve_http-get_example :
    serve_http sample now ((lit "foo", lit "old") ∷ []) no_response get_foo none
    ≡ (shown sample now (lit "foo") (lookup (lit "foo") ((lit "foo", lit "old") ∷ [])), none)
serve_http-get_example =
    serve_http-get sample now ((lit "foo", lit "old") ∷ []) (lit "foo") get_foo none not_empty refl
      refl

some_address : get_foo.remote_addr ≢ []
some_address e = cc

forward_to_leader-once_example :
    (e : Text) × (forward_to_leader sample no_response
        (director (lit "10.0.0.1:11000") get_foo.path get_foo)
        none
      ≡ (refused e, (no_response, none)))
forward_to_leader-once_example =
    forward_to_leader-once sample (lit "10.0.0.1:11000") get_foo no_response none some_address

abbrev pairs : Map Text
pairs = (lit "foo", lit "new") ∷ (lit "bar", lit "y") ∷ []

abbrev post_pairs : HttpRequest
post_pairs = request (lit "POST") key_path (ok (packing.text_map.encode pairs))

do_key_post-Posted_example :
    (((do_key_post sample now no_response post_pairs none).0 ≡ no_response)
      × AllSet sample now pairs none (do_key_post sample now no_response post_pairs none).1)
    ⊎ (((do_key_post sample now no_response post_pairs none).0
          ≡ write_header sample 500 no_response)
        × Stopped sample now pairs none (do_key_post sample now no_response post_pairs none).1)
do_key_post-Posted_example = do_key_post-Posted sample now no_response post_pairs none pairs refl

cluster-servers_example :
    ((cluster sample (some old_server)).0.1 ≡ none)
    × (map key_of_peer (cluster sample (some old_server)).0.0.servers
        ≡ map key_of (old_server ∷ []))
    × All HasState (cluster sample (some old_server)).0.0.servers
    × (one_server.configuration (cluster sample (some old_server)).1
        ≡ one_server.configuration (some old_server))
cluster-servers_example =
    cluster-servers sample one_server-IsRaft (some old_server) (old_server ∷ []) refl

services : Unit {0}
unfolding ◌==◌ has_prefix trim_prefix split contains cut_first cut_last after_bracket bracketed
    plain split_at split_host_port host_of port_of http_addr raft_addr fix empty_then equals_then
    fix_request lookup walk take_out visit walk_raft_servers finish_join after_adding join_node
    write_config_entries write_peers_json set see_server note_leader note_current ask_unknown
    or_lost cluster write_header write save_seen save_cluster after_join join_read handle_join
services = tt

cluster_text : IsUtf8 (packing.cluster.encode (cluster sample none).0.0)
unfolding services
cluster_text = refl

save_cluster-unseen_example :
    (entry : Text) × (save_cluster sample now none
      ≡ (one_server.raft_apply entry (cluster sample none).1).1)
    × ((at : ℕ) (node : Store sample)
        → (kv : Map Text) × (apply sample at entry node ≡ some (nil, record node { kv = kv })))
save_cluster-unseen_example =
    save_cluster-unseen sample one_server-IsRaft packing-IsJson utc-IsClock now none [] refl refl
      cluster_text (λ value t. passes _)

abbrev joining : JoinRequest
joining = record { addr = lit "10.0.0.2:12000"; node_id = lit "10.0.0.2:11000,10.0.0.2:12000" }

abbrev join_request : HttpRequest
join_request =
    request (lit "POST") (lit "/hraftd/raft/join") (ok (packing.join_request.encode joining))

abbrev joined_server : Server
joined_server = record { suffrage = voter; id = joining.node_id; address = joining.addr }

abbrev welcome : W sample
welcome = record {
  status = some 200;
  written = answer_rsp (rsp_ok (lit "OK")) ∷ [];
  aborted = false;
}

joins :
    handle_join sample now no_response join_request (some old_server)
    ≡ (done, (welcome, some joined_server))
unfolding services
joins = refl

handle_join-IsJoined_example :
    (m : JoinRequest) × (l' : List Server) × (fix_request
        (origin join_request)
        (decode_body packing.join_request no_join_request join_request.body).0
      ≡ some m)
    × (one_server.configuration (some joined_server) ≡ ok l')
    × IsJoined m.node_id m.addr (old_server ∷ []) l'
handle_join-IsJoined_example =
    handle_join-IsJoined sample one_server-IsRaft now no_response welcome (some old_server)
      (some joined_server) join_request (old_server ∷ []) refl joins

abbrev held : Store sample
held = record { kv = (lit "foo", lit "old") ∷ (lit "baz", lit "z") ∷ []; state = none }

abbrev entry_of_pair : Text → Text → ℕ × Log
entry_of_pair k v =
    (1_001_000_000_000, packing.command.encode (set_command sample k v 1_000_000_000_000))

abbrev entries : List (ℕ × Log)
entries = entry_of_pair (lit "foo") (lit "new") ∷ entry_of_pair (lit "bar") (lit "y") ∷ []

pairs-Distinct : Distinct pairs
unfolding services
pairs-Distinct = (refl, (refl, tt))

pairs-IsOrdinary : All (IsOrdinary sample now) pairs
pairs-IsOrdinary = (
  (refl, refl, (λ e. cc), λ t. passes (set_command sample (lit "foo") (lit "new") t)),
  ((refl, refl, (λ e. cc), λ t. passes (set_command sample (lit "bar") (lit "y") t)), tt),
)
