-- ===== src/Service/Forward.antt =====
-- Forwarding of requests to the leader (service.go).
use hraftd.Common.{ℕ, not, none, some, [], if◌then◌else◌}
use hraftd.Common.Text.{Text, lit, ◌==◌}
use hraftd.Address.{http_addr}
use hraftd.Model.{Peer}
use hraftd.Http.{header_get, x_origin_remote_addr, director}
use hraftd.World.{WithError}
use hraftd.Env.{Env}
use hraftd.Store.Leader.{lead_server}
use hraftd.Service.Answers.{
  done, refused, Outcome, proxied, W, S, Handler, HandlerE, write_header, write, report,
}

abbrev pub no_leader : Text
no_leader = lit "failed to get raft leader"

abbrev pub forwarded_twice : Text
forwarded_twice = lit "forward two times not allowed"

module _ (env : Env) where
  open env use {world}

  -- the answer of the leader, handed on by the reverse proxy
  abbrev pub relay : W env → (ℕ × Text) × S env → Outcome × (W env × S env)
  relay w ((status, body), s) = (done, (write env (proxied body) (write_header env status w), s))

  -- forwardToLeader, given what LeadServer returns
  unfoldable pub forward_to : WithError Peer → HandlerE env
  forward_to (leader, some e) w r s = (refused e, (w, s))
  forward_to (leader, none) w r s =
      let addr = http_addr leader.id in
      if addr == []
      then (refused no_leader, (w, s))
      else if not (header_get x_origin_remote_addr r.header == [])
      then (refused forwarded_twice, (w, s))
      else relay w (world.round_trip (director addr r.path r) s)

  -- Service.forwardToLeader
  unfoldable pub forward_to_leader : HandlerE env
  forward_to_leader w r s = forward_to (lead_server env s) w r s

  -- Service.tryForwardToLeaderFn
  unfoldable pub try_forward_to_leader_fn : HandlerE env → HandlerE env
  try_forward_to_leader_fn f w r s = if world.is_leader s then f w r s else forward_to_leader w r s

  -- Service.tryForwardToLeader
  unfoldable pub try_forward_to_leader : Handler env → Handler env
  try_forward_to_leader f w r s =
      if world.is_leader s then f w r s else report env (forward_to_leader w r s)
