-- ===== src/Tests/Addresses.antt =====
-- Node IDs and join requests.
use hraftd.Common.{◌≡◌, refl, []}
use hraftd.Common.Text.{lit, has_prefix, trim_prefix, split, ◌==◌}
use hraftd.Common.Result.{ok, err}
use hraftd.Address.{
  contains, cut_first, cut_last, after_bracket, bracketed, plain, split_at, split_host_port,
  host_of, port_of, http_addr, raft_addr, fix, bind_url, url, url_raft_state, url_raft_join,
  missing_port, too_many_colons, equals_then,
}
use hraftd.Model.{fix_request}

addresses : Unit {0}
unfolding has_prefix trim_prefix split ◌==◌ contains cut_first cut_last after_bracket bracketed
    plain split_at split_host_port host_of port_of http_addr raft_addr fix bind_url url
    url_raft_state url_raft_join equals_then fix_request
addresses = tt

split_tests :
    (split_host_port (lit "localhost:11000") ≡ ok (lit "localhost", lit "11000"))
    × (split_host_port (lit ":11000") ≡ ok ([], lit "11000"))
    × (split_host_port (lit "[::1]:80") ≡ ok (lit "::1", lit "80"))
    × (split_host_port (lit "::1:80") ≡ err too_many_colons)
    × (split_host_port (lit "[::1]") ≡ err missing_port)
    × (split_host_port (lit "localhost") ≡ err missing_port)
unfolding addresses
split_tests = (refl, refl, refl, refl, refl, refl)

url_test :
    url_raft_state (lit "10.0.0.1:11000,10.0.0.1:12000")
    ≡ lit "http://10.0.0.1:11000/hraftd/raft/state"
unfolding addresses
url_test = refl
