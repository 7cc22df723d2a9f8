-- ===== src/Model.antt =====
-- model.go: the data that nodes exchange, and its operations. JSON tags are left out: the codec is
-- a library's. `Data` of `Rsp` is the JSON value, as text.
pub mod Peers
pub mod Requests
use hraftd.Common.{Bool, true, false, Option, none, some, List, [], ◌∷◌, if◌then◌else◌}
use hraftd.Common.Text.{Text, lit, ◌==◌}
use hraftd.Common.Result.{◌>>=?◌}
use hraftd.Address.{NodeId, host_of, port_of, host_port, equals_then, fix}

abbrev pub state_leader : Text
state_leader = lit "Leader"

abbrev pub state_follower : Text
state_follower = lit "Follower"

pub record Peer : Type 0 where
  pub address : Text
  pub id : NodeId
  pub state : Text
  pub suffrage : Text

abbrev pub no_peer : Peer
no_peer = record { address = []; id = []; state = []; suffrage = [] }

-- Peer.AnyStateOf
unfoldable pub any_state_of : Peer → List Text → Bool
any_state_of p [] = false
any_state_of p (state ∷ states) = if p.state == state then true else any_state_of p states

-- Peer.IsActive
unfoldable pub is_active : Peer → Bool
unfolding any_state_of
is_active p = any_state_of p (state_leader ∷ state_follower ∷ [])

pub record RaftCluster : Type 0 where
  pub current : Peer
  pub leader : Peer
  pub servers : List Peer

-- the loop of ActivePeers
unfoldable pub active_of : List Peer → List Peer
active_of [] = []
active_of (server ∷ servers) =
    let rest = active_of servers in if is_active server then server ∷ rest else rest

-- RaftCluster.ActivePeers
unfoldable pub active_peers : RaftCluster → List Peer
active_peers r = active_of r.servers

pub record JoinRequest : Type 0 where
  pub addr : Text
  pub node_id : NodeId

abbrev pub loopback : Text
loopback = lit "127.0.0.1"

-- JoinRequest.Fix; `none` is the panic of NodeID.Fix on an ID without a comma
unfoldable pub fix_request : Text → JoinRequest → Option JoinRequest
fix_request remote_addr r =
    let host = equals_then (host_of remote_addr) loopback [] in
    fix host r.node_id >>=? λ id.
    some (record { addr = host_port host (port_of r.addr); node_id = id })

pub record Rsp : Type 0 where
  pub success : Bool
  pub msg : Text
  pub payload : Text

abbrev pub no_rsp : Rsp
no_rsp = record { success = false; msg = []; payload = [] }

pub record Command : Type 0 where
  pub op : Text
  pub key : Text
  pub value : Text
  pub time : Text
