-- ===== src/Service/Rafts.antt =====
-- The handlers of the cluster (service_raft.go).
use hraftd.Common.{ℕ, Option, none, some, [], if◌then◌else◌}
use hraftd.Common.Text.{Text, lit, ◌==◌, trim_prefix}
use hraftd.Address.{raft_path, empty_then}
use hraftd.Model.{RaftCluster, JoinRequest, fix_request}
use hraftd.Http.{HttpRequest, header_get, x_origin_remote_addr}
use hraftd.World.{WithError}
use hraftd.Env.{Env}
use hraftd.Store.Machine.{set}
use hraftd.Store.Membership.{join_node}
use hraftd.Store.Leader.{cluster, raft_stats}
use hraftd.Service.Answers.{
  done, refused, panicked, Outcome, plain_text, answer_rsp, answer_cluster, answer_node,
  answer_stats, decode_body, W, S, Handler, HandlerE, write_header, write, check_method,
  check_method_e,
}
use hraftd.Service.Forward.{try_forward_to_leader_fn}
use hraftd.Service.Keys.{rsp_ok, handle_remove}

abbrev pub no_join_request : JoinRequest
no_join_request = record { addr = []; node_id = [] }

-- the key under which saveCluster keeps the cluster
abbrev pub saved_key : Text
saved_key = lit "raft/cluster"

-- the address that a request comes from, behind a forwarding node
abbrev pub origin : HttpRequest → Text
origin r = empty_then (header_get x_origin_remote_addr r.header) r.remote_addr

module _ (env : Env) where
  open env use {codecs, world}

  -- Service.handleNode
  unfoldable pub handle_node : HandlerE env
  handle_node w r s = (
    done,
    (
      write env
          (answer_node (record {
            start_time = env.start_time;
            node_id = env.node_id;
            hostname = env.hostname;
            ip = env.main_ip;
          }))
          w,
      s,
    ),
  )

  -- handleCluster, given what Cluster returns
  unfoldable pub cluster_seen : WithError RaftCluster × S env → W env → Outcome × (W env × S env)
  cluster_seen ((c, some e), s) w = (refused e, (w, s))
  cluster_seen ((c, none), s) w = (done, (write env (answer_cluster c) w, s))

  -- Service.handleCluster
  unfoldable pub handle_cluster : HandlerE env
  handle_cluster w r s = cluster_seen (cluster env s) w

  -- the functions behind /health, /stats and /state
  abbrev health : Handler env
  health w r s = (write env (plain_text (lit "OK")) w, s)

  abbrev show_stats : Handler env
  show_stats w r s = (write env (answer_stats (raft_stats env s)) w, s)

  abbrev show_state : Handler env
  show_state w r s = (write env (answer_rsp (rsp_ok (world.node_state s))) w, s)

  module _ (now : S env → ℕ) where
    -- saveCluster, given what Cluster returns; the error of Set is only logged
    unfoldable pub save_seen : WithError RaftCluster × S env → S env
    save_seen ((c, some e), s) = s
    save_seen ((c, none), s) = (set env saved_key (codecs.cluster.encode c) (now s) s).1

    -- Service.saveCluster
    unfoldable pub save_cluster : S env → S env
    save_cluster s = save_seen (cluster env s)

    -- handleJoin, given what Store.Join returns
    unfoldable pub after_join : W env → Option Text × S env → Outcome × (W env × S env)
    after_join w (some e, s) = (refused e, (w, s))
    after_join w (none, s) = (done, (write env (answer_rsp (rsp_ok (lit "OK"))) w, save_cluster s))

    -- handleJoin, once the request is read; Fix may panic
    unfoldable pub join_read :
        Text → WithError JoinRequest → W env → S env → Outcome × (W env × S env)
    join_read from (m, some e) w s = (refused e, (w, s))
    join_read from (m, none) w s = elim (fix_request from m) [
      | none ↦ (panicked, (w, s))
      | some m' ↦ after_join w (join_node env m'.node_id m'.addr s)
    ]

    -- Service.handleJoin
    unfoldable pub handle_join : HandlerE env
    handle_join w r s =
        join_read (origin r) (decode_body codecs.join_request no_join_request r.body) w s

    -- Service.handleRaftRequest
    unfoldable pub handle_raft_request : Handler env
    handle_raft_request w r s =
        let path = trim_prefix r.path raft_path in
        if path == lit "/health"
        then check_method env (lit "GET") health w r s
        else if path == lit "/join"
        then check_method_e env (lit "POST") (try_forward_to_leader_fn env handle_join) w r s
        else if path == lit "/remove"
        then check_method_e env (lit "DELETE") (try_forward_to_leader_fn env (handle_remove env)) w
            r s
        else if path == lit "/stats"
        then check_method env (lit "GET") show_stats w r s
        else if path == lit "/state"
        then check_method env (lit "GET") show_state w r s
        else if path == lit "/cluster"
        then check_method_e env (lit "GET") handle_cluster w r s
        else if path == lit "/node"
        then check_method_e env (lit "GET") handle_node w r s
        else (write_header env 404 w, s)
