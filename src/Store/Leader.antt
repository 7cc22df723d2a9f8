-- ===== src/Store/Leader.antt =====
-- What a node knows of its cluster (store.go): `LeadServer`, `Cluster` and `RaftStats`.
use hraftd.Common.{Bool, true, false, Option, none, some, List, [], ◌∷◌, ◌++◌, map, if◌then◌else◌}
use hraftd.Common.Text.{Text, lit, ◌==◌}
use hraftd.Common.Map.{Map, insert}
use hraftd.Common.Result.{Result, ok, value_or}
use hraftd.Model.{Peer, no_peer, RaftCluster}
use hraftd.World.{WithError, Server, ConfigEntry}
use hraftd.Env.{Env}
use hraftd.Remote.{no_cluster, get_node_state}
use hraftd.Store.PeersFile.{entry_of}
use hraftd.Store.Membership.{walk_raft_servers}

-- A value of the map that RaftStats makes.
pub data Stat : Type 0 where
  plain : Text → Stat
  nodes : List ConfigEntry → Stat

module _ (env : Env) where
  open env use {world}

  abbrev pub leader_na : Text
  leader_na = lit "leader NA"

  -- the function that LeadServer walks the servers with
  unfoldable pub see_leader : Text → Server → Peer → Result Bool × Peer
  see_leader leader srv peer =
      if leader == srv.address
      then (
        ok false,
        record { address = srv.address; id = srv.id; state = world.leader_name; suffrage = [] },
      )
      else (ok true, peer)

  -- LeadServer behind the walk
  unfoldable pub found_leader : Option Text × Peer → WithError Peer
  found_leader (some e, peer) = (peer, some e)
  found_leader (none, peer) = (peer, if peer.id == [] then some leader_na else none)

  -- RaftStore.LeadServer
  unfoldable pub lead_server : world.State → WithError Peer
  lead_server s =
      let leader = world.leader_addr s in
      if leader == []
      then (no_peer, some leader_na)
      else found_leader (walk_raft_servers env (see_leader leader) s no_peer)

  -- A server as Cluster reports it: what the node knows of its state, or what the server answers.
  abbrev pub peer_of : Server → Peer
  peer_of srv = record {
    address = srv.address;
    id = srv.id;
    state = [];
    suffrage = world.suffrage_name srv.suffrage;
  }

  abbrev with_state : Text → Peer → Peer
  with_state state p = record p { state = state }

  abbrev lost : Text
  lost = lit "Lost"

  -- the state of a server that the node does not know, by getNodeState
  unfoldable pub ask_state : Peer → world.State → Peer × world.State
  ask_state p s =
      let (r, s') = get_node_state env p.id s in (if r.success then with_state r.msg p else p, s')

  unfoldable pub or_lost : Peer → Peer
  or_lost p = if p.state == [] then with_state lost p else p

  abbrev pub add_server : Peer × world.State → RaftCluster → RaftCluster × world.State
  add_server (p, s) c = (record c { servers = c.servers ++ or_lost p ∷ [] }, s)

  -- the cases of the walk in Cluster: the leader, the node itself, a server that has to be asked
  unfoldable pub note_leader : Text → Peer × RaftCluster → Peer × RaftCluster
  note_leader leader (p, c) =
      if leader == p.address
      then (with_state world.leader_name p, record c { leader = with_state world.leader_name p })
      else (p, c)

  unfoldable pub note_current : world.State → Peer × RaftCluster → Peer × RaftCluster
  note_current s (p, c) =
      if env.node_id == p.id
      then (
        with_state (world.node_state s) p,
        record c { current = with_state (world.node_state s) p },
      )
      else (p, c)

  unfoldable pub ask_unknown : Peer → world.State → Peer × world.State
  ask_unknown p s = if p.state == [] then ask_state p s else (p, s)

  -- the function that Cluster walks the servers with
  unfoldable pub see_server :
      Text → Server → RaftCluster × world.State → Result Bool × (RaftCluster × world.State)
  see_server leader srv (c, s) =
      let (p, c') = note_current s (note_leader leader (peer_of srv, c)) in
      (ok true, add_server (ask_unknown p s) c')

  -- RaftStore.Cluster
  unfoldable pub cluster : world.State → WithError RaftCluster × world.State
  cluster s =
      let leader = world.leader_addr s in
      let (e, (c, s')) = walk_raft_servers env (see_server leader) s (no_cluster, s) in ((c, e), s')

  -- the value of RaftStats under a key of raft.Stats()
  abbrev stat_of : world.State → Text → Text → Stat
  stat_of s k v =
      if k == lit "latest_configuration"
      then nodes (map (entry_of env) (value_or [] (world.configuration s)))
      else plain v

  -- the loop of RaftStats
  unfoldable pub stats_of : world.State → Map Text → Map Stat → Map Stat
  stats_of s [] m = m
  stats_of s ((k, v) ∷ stats) m = stats_of s stats (insert k (stat_of s k v) m)

  -- RaftStore.RaftStats
  unfoldable pub raft_stats : world.State → Map Stat
  raft_stats s = stats_of s (world.stats s) []
