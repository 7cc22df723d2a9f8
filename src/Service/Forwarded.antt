-- ===== src/Service/Forwarded.antt =====
-- A follower hands a request on to the leader (service.go).
use hraftd.Common.{ℕ, ◌≡◌, ◌≢◌, refl, ap, ◌∙◌, false, none, some, List, [], ◌∷◌}
use hraftd.Common.Text.{Text, lit, ◌==◌, eq_false, split}
use hraftd.Common.Result.{ok}
use hraftd.Address.{http_addr}
use hraftd.Http.{HttpRequest, header_get, x_origin_remote_addr, director}
use hraftd.World.{Server, IsIn, IsRaft}
use hraftd.Env.{Env}
use hraftd.Store.Led.{leading, lead_server-leading}
use hraftd.Service.Answers.{no_response, proxied, write, write_header, S, Handler, report}
use hraftd.Service.Once.{origin-director}
use hraftd.Service.Forward.{relay, forward_to, forward_to_leader, try_forward_to_leader}

http_addr-nil : http_addr [] ≡ []
unfolding http_addr split
http_addr-nil = refl

module _ (env : Env) where
  open env use {world}

  -- A follower that gets a request from a client, where raft knows a leader and its configuration has
  -- the leader's server with an HTTP address in its ID, sends it by HTTP to that address, with its
  -- method, path and body and with the address that it came from in a header, and answers with the
  -- status and the body that come back, and with nothing else; its own handler is not run.
  pub try_forward_to_leader-leading :
      (raft : IsRaft world) (f : Handler env) (r : HttpRequest) (s s' : S env) (l : List Server)
      (srv : Server) (status : ℕ) (body : Text)
      → world.is_leader s ≡ false
      → world.configuration s ≡ ok l
      → IsIn srv l
      → world.leader_addr s ≡ srv.address
      → srv.address ≢ []
      → http_addr srv.id ≢ []
      → header_get x_origin_remote_addr r.header ≡ []
      → world.round_trip (director (http_addr srv.id) r.path r) s ≡ ((status, body), s')
      → let sent = director (http_addr srv.id) r.path r in
        (try_forward_to_leader env f no_response r s
          ≡ (record { status = some status; written = proxied body ∷ []; aborted = false }, s'))
        × (sent.scheme ≡ lit "http")
        × (sent.url_host ≡ http_addr srv.id)
        × (sent.method ≡ r.method)
        × (sent.path ≡ r.path)
        × (sent.body ≡ r.body)
        × (header_get x_origin_remote_addr sent.header ≡ r.remote_addr)
  unfolding try_forward_to_leader forward_to_leader ◌==◌ write_header director report write
  try_forward_to_leader-leading raft f r s s' l srv status body follows configured listed leads
        address http first back =
      let named : srv.id ≢ [] = λ e. http (ap http_addr e ∙ http_addr-nil) in
      let found = lead_server-leading env raft s l srv configured listed leads address named in
      let sent : forward_to env (leading env srv, none) no_response r s
          ≡ relay env no_response ((status, body), s') =
        (unfold forward_to in
          rw (eq_false (http_addr srv.id) [] http, first) (ap (relay env no_response) back)) in
      (
        rw follows
            (ap (λ p. report env (forward_to env p no_response r s)) found ∙ ap (report env) sent),
        refl,
        refl,
        refl,
        refl,
        refl,
        origin-director (http_addr srv.id) r.path r,
      )
