-- ===== src/Store/PeersFile.antt =====
-- peers.json (store.go): the servers that a node remembers, written after each change of the
-- membership and read when the node starts again.
use hraftd.Common.{Option, none, some, List, [], map, if◌then◌else◌}
use hraftd.Common.Text.{Text, lit, ◌==◌}
use hraftd.Common.Result.{Result, ok, err, value_or}
use hraftd.Model.{Peer, RaftCluster}
use hraftd.World.{WithError, Suffrage, voter, nonvoter, staging, Server, ConfigEntry}
use hraftd.Env.{Env}
use hraftd.Remote.{try_join_leader}

-- ParseSuffrage
unfoldable pub parse_suffrage : Text → Suffrage
parse_suffrage s =
    if s == lit "Voter"
    then voter
    else if s == lit "Nonvoter"
    then nonvoter
    else if s == lit "Staging"
    then staging
    else voter

module _ (env : Env) where
  open env use {codecs, clock, world}

  -- the entry of a server in peers.json
  abbrev pub entry_of : Server → ConfigEntry
  entry_of server = record {
    id = server.id;
    address = server.address;
    suffrage = world.suffrage_name server.suffrage;
  }

  abbrev pub entry_of_peer : Peer → ConfigEntry
  entry_of_peer p = record { id = p.id; address = p.address; suffrage = p.suffrage }

  -- writePeersJSON
  unfoldable pub write_peers_json : List ConfigEntry → world.State → Option Text × world.State
  write_peers_json entries s = world.write_peers (codecs.entries.encode entries) s

  -- writeConfigEntries: if the configuration cannot be read there are no servers
  unfoldable pub write_config_entries : world.State → Option Text × world.State
  write_config_entries s = write_peers_json (map entry_of (value_or [] (world.configuration s))) s

  -- writeClusterConfigEntries
  unfoldable pub write_cluster_config_entries :
      RaftCluster → world.State → Option Text × world.State
  write_cluster_config_entries cluster s = write_peers_json (map entry_of_peer cluster.servers) s

  abbrev pub server_of : ConfigEntry → Server
  server_of e = record { suffrage = parse_suffrage e.suffrage; id = e.id; address = e.address }

  -- what ReadPeersJSON makes of the file's content
  unfoldable pub servers_of : WithError (List ConfigEntry) → Result (List Server)
  servers_of (peers, some e) = err e
  servers_of (peers, none) = ok (map server_of peers)

  -- ReadPeersJSON
  unfoldable pub read_peers_json : world.State → Result (List Server)
  read_peers_json s = elim (world.read_peers s) [
    | err e ↦ err e
    | ok buf ↦ servers_of (codecs.entries.decode buf)
  ]

  -- recoverJoin
  unfoldable pub recover_join : world.State → Option Text × world.State
  recover_join s = elim (read_peers_json s) [
    | err e ↦ (some e, s)
    | ok servers ↦ (none, (try_join_leader env servers s).1)
  ]
