-- ===== src/Tests/Forwarding.antt =====
-- A follower that hands a request on.
use hraftd.Common.{◌≡◌, ◌≢◌, refl, false, some, [], ◌∷◌, inl}
use hraftd.Common.Text.{lit, split}
use hraftd.Common.Map.{lookup}
use hraftd.Address.{http_addr}
use hraftd.Http.{HttpRequest, header_get, x_origin_remote_addr, director}
use hraftd.World.{Server, voter, World, IsRaft}
use hraftd.Env.{Env}
use hraftd.Service.Answers.{no_response, proxied, Handler}
use hraftd.Service.Forward.{try_forward_to_leader}
use hraftd.Service.Forwarded.{try_forward_to_leader-leading}
use hraftd.Tests.Sample.{sample, one_server, one_server-IsRaft}
use hraftd.Tests.Services.{get_foo}

-- It follows, and whatever is sent on is answered with 200.
abbrev following : World
following = record one_server { is_leader = λ s. false; round_trip = λ r s. ((200, r.url_host), s) }

following-IsRaft : IsRaft following
following-IsRaft = record {
  unique = one_server-IsRaft.unique;
  removed = one_server-IsRaft.removed;
  added = one_server-IsRaft.added;
  written = one_server-IsRaft.written;
  proposed = one_server-IsRaft.proposed;
  asked = one_server-IsRaft.asked;
}

abbrev follower : Env
follower = record sample { world = following }

abbrev leader : Server
leader = record {
  suffrage = voter;
  id = lit "10.0.0.2:11000,10.0.0.2:12000";
  address = lit "10.0.0.2:12000";
}

abbrev unused : Handler follower
unused w r s = (w, s)

has_http : http_addr leader.id ≢ []
unfolding http_addr split
has_http e = cc

abbrev sent : HttpRequest
sent = director (http_addr leader.id) get_foo.path get_foo

try_forward_to_leader-leading_example :
    (try_forward_to_leader follower unused no_response get_foo (some leader) ≡ (
      record { status = some 200; written = proxied (http_addr leader.id) ∷ []; aborted = false },
      some leader,
    ))
    × (sent.scheme ≡ lit "http")
    × (sent.url_host ≡ http_addr leader.id)
    × (sent.method ≡ get_foo.method)
    × (sent.path ≡ get_foo.path)
    × (sent.body ≡ get_foo.body)
    × (header_get x_origin_remote_addr sent.header ≡ get_foo.remote_addr)
unfolding lookup director
try_forward_to_leader-leading_example =
    try_forward_to_leader-leading follower following-IsRaft unused get_foo (some leader)
      (some leader) (leader ∷ []) leader 200 (http_addr leader.id) refl refl (inl refl) refl
      (λ e. cc) has_http refl refl
