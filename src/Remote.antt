-- ===== src/Remote.antt =====
-- What a node asks of other nodes over HTTP: http.go, the functions `Join`, `checkJoined`, `Cluster`
-- and `Arg.Join` of arg.go, and `getNodeState`, `findLeader`, `tryFindAndJoinLeader` and
-- `tryJoinLeader` of store.go. Status codes and bodies that are only logged are left out.
pub mod Kept
use hraftd.Common.{Bool, true, false, ◌&&◌, Option, none, some, List, [], ◌∷◌, ◌++◌, if◌then◌else◌}
use hraftd.Common.Text.{Text, lit, ◌==◌}
use hraftd.Common.Result.{ok, err}
use hraftd.Address.{NodeId, http_addr, url_raft_cluster, url_raft_state, bind_url_raft_join}
use hraftd.Model.{Peer, no_peer, RaftCluster, Rsp, no_rsp, state_leader}
use hraftd.World.{WithError, Codec, Server, World}
use hraftd.Env.{Env}

abbrev pub no_cluster : RaftCluster
no_cluster = record { current = no_peer; leader = no_peer; servers = [] }

module _ (w : World) {A : Type 0} (codec : Codec A) (zero_value : A) where
  -- GetJSON and parseRSP; if the request fails the value is left as it was
  unfoldable pub get_json : Text → w.State → WithError A × w.State
  get_json url s =
      let (r, s') = w.http_get url s in
      elim r [ err e ↦ ((zero_value, some e), s') | ok body ↦ (codec.decode body, s') ]

  -- PostJSON and parseRSP
  unfoldable pub post_json : Text → Text → w.State → WithError A × w.State
  post_json url body s =
      let (r, s') = w.http_post url body s in
      elim r [ err e ↦ ((zero_value, some e), s') | ok (status, rsp) ↦ (codec.decode rsp, s') ]

-- the loop of checkJoined
unfoldable pub has_server : NodeId → List Peer → Bool
has_server node [] = false
has_server node (peer ∷ peers) = if peer.id == node then true else has_server node peers

-- The first peer whose state is "Leader", as findLeader looks for it in a cluster's servers.
unfoldable pub leader_of : List Peer → Option Peer
leader_of [] = none
leader_of (n ∷ peers) = if n.state == state_leader then some n else leader_of peers

-- what findLeader reads from the answer of a peer
unfoldable pub leader_in : RaftCluster → Option Peer
leader_in cl = if cl.leader.state == state_leader then some cl.leader else leader_of cl.servers

module _ (env : Env) where
  abbrev pub S : Type 0
  S = env.world.State

  -- Cluster
  unfoldable pub cluster_of : NodeId → S → WithError RaftCluster × S
  cluster_of node = get_json env.world env.codecs.cluster no_cluster (url_raft_cluster node)

  -- RaftStore.getNodeState
  unfoldable pub get_node_state : NodeId → S → Rsp × S
  get_node_state node s =
      let (r, s') = get_json env.world env.codecs.rsp no_rsp (url_raft_state node) s in (r.0, s')

  abbrev pub not_joined : NodeId → Text
  not_joined node = lit "checked failed for joined node " ++ node

  -- checkJoined
  unfoldable pub check_joined : NodeId → S → Option Text × S
  check_joined node s =
      let (r, s') = cluster_of node s in
      elim r.1 [
        | some e ↦ (some e, s')
        | none ↦ (if has_server node r.0.servers then none else some (not_joined node), s')
      ]

  -- what Join does with the response
  unfoldable pub joined : NodeId → WithError Rsp → S → Option Text × S
  joined node (r, some e) s = (some e, s)
  joined node (r, none) s = if r.success then check_joined node s else (some r.msg, s)

  -- Join
  unfoldable pub join : Text → Text → NodeId → S → Option Text × S
  join join_addr raft_addr node s =
      let body = env.codecs.join_request.encode (record { addr = raft_addr; node_id = node }) in
      let (r, s') =
        post_json env.world env.codecs.rsp no_rsp (bind_url_raft_join join_addr) body s in
      joined node r s'

  -- the loop of Arg.Join
  unfoldable pub join_first : List Text → S → Bool × S
  join_first [] s = (false, s)
  join_first (addr ∷ addrs) s =
      let (e, s') = join addr env.raft_addr env.node_id s in
      elim e [ none ↦ (true, s') | some _ ↦ join_first addrs s' ]

  -- Arg.Join
  unfoldable pub arg_join : (bootstrap : Bool) → Text → List Text → S → Option Text × S
  arg_join true join_addrs addrs s = (none, s)
  arg_join false join_addrs addrs s =
      let (done, s') = join_first addrs s in
      (if done then none else some (lit "failed to join " ++ join_addrs), s')

  -- RaftStore.findLeader
  unfoldable pub find_leader : List Peer → S → Option Peer × S
  find_leader [] s = (none, s)
  find_leader (peer ∷ peers) s = elim (peer.state == state_leader) [
    | true ↦ (some peer, s)
    | false ↦
        let (r, s') = cluster_of peer.id s in
        elim r.1 [
          | some _ ↦ find_leader peers s'
          | none ↦ elim (leader_in r.0) [ some n ↦ (some n, s') | none ↦ find_leader peers s' ]
        ]
  ]

  -- RaftStore.tryFindAndJoinLeader; the result of Join is dropped
  unfoldable pub try_find_and_join_leader : RaftCluster → S → S
  try_find_and_join_leader cluster s =
      let (found, s') = find_leader cluster.servers s in
      elim found [
        | none ↦ s'
        | some leader ↦
            if leader.id == []
            then s'
            else (join (http_addr leader.id) env.raft_addr env.node_id s').1
      ]

  -- the loop of tryJoinLeader: the last server that calls itself the leader
  unfoldable pub last_leader : List Server → NodeId → S → NodeId × S
  last_leader [] leader s = (leader, s)
  last_leader (server ∷ servers) leader s =
      let (r, s') = get_node_state server.id s in
      last_leader servers (if r.success && r.msg == state_leader then server.id else leader) s'

  -- RaftStore.tryJoinLeader
  unfoldable pub try_join_leader : List Server → S → Bool × S
  try_join_leader servers s =
      let (leader, s') = last_leader servers [] s in
      if leader == []
      then (false, s')
      else (let (e, s'') = join (http_addr leader) env.raft_addr env.node_id s' in
          (elim e [ none ↦ true | some _ ↦ false ], s''))
