-- ===== src/Tests/Memberships.antt =====
-- Joining and leaving a cluster.
use hraftd.Common.{◌≡◌, refl, none, some, List, [], ◌∷◌}
use hraftd.Common.Text.{lit, ◌==◌}
use hraftd.Common.Result.{ok}
use hraftd.World.{Server, voter}
use hraftd.Store.Membership.{
  walk, take_out, visit, walk_raft_servers, finish_join, after_adding, join_node, after_removal,
  remove,
}
use hraftd.Store.PeersFile.{write_config_entries, write_peers_json}
use hraftd.Store.Joined.{IsJoined}
use hraftd.Store.Members.{join_node-IsJoined}
use hraftd.Tests.Sample.{sample, one_server, one_server-IsRaft}

memberships : Unit {0}
unfolding ◌==◌ walk take_out visit walk_raft_servers finish_join after_adding join_node
    after_removal remove write_config_entries write_peers_json
memberships = tt

-- A node of another ID that had the joining node's address.
abbrev old_server : Server
old_server = record { suffrage = voter; id = lit "a"; address = lit "10.0.0.2:12000" }

abbrev new_server : Server
new_server = record { suffrage = voter; id = lit "b"; address = lit "10.0.0.2:12000" }

joins :
    join_node sample (lit "b") (lit "10.0.0.2:12000") (some old_server) ≡ (none, some new_server)
unfolding memberships
joins = refl

join_node-IsJoined_example :
    (l' : List Server) × (one_server.configuration (some new_server) ≡ ok l')
    × IsJoined (lit "b") (lit "10.0.0.2:12000") (old_server ∷ []) l'
join_node-IsJoined_example =
    join_node-IsJoined sample one_server-IsRaft (some old_server) (some new_server)
      (old_server ∷ []) refl (lit "b") (lit "10.0.0.2:12000") joins

leaves : remove sample (lit "a") (some old_server) ≡ (none, none)
unfolding memberships
leaves = refl
