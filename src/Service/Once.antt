-- ===== src/Service/Once.antt =====
-- A request is forwarded once at most (service.go, proxy.go).
use hraftd.Common.{◌≡◌, ◌≢◌, inl, inr, refl, ◌∙◌, false, none, some, [], Bool-cases}
use hraftd.Common.Text.{Text, ◌==◌, eq_refl, eq_false}
use hraftd.Common.Map.{lookup-insert}
use hraftd.Http.{
  HttpRequest, Header, header_get, header_add, header_set, x_origin_remote_addr, x_origin_host,
  x_forwarded_host, director,
}
use hraftd.Model.{Peer}
use hraftd.World.{WithError}
use hraftd.Env.{Env}
use hraftd.Address.{http_addr}
use hraftd.Store.Leader.{lead_server}
use hraftd.Service.Answers.{refused, W, S}
use hraftd.Service.Forward.{no_leader, forwarded_twice, forward_to, forward_to_leader}

header_get-add :
    (name other v : Text) (h : Header)
    → (other == name) ≡ false
    → header_get name (header_add other v h) ≡ header_get name h
header_get-add name other v h differs = rw (lookup-insert other name _ h, differs) refl

header_get-set : (name v : Text) (h : Header) → header_get name (header_set name v h) ≡ v
header_get-set name v h = rw (lookup-insert name name _ h, eq_refl name) refl

-- The director tells the address that the request came from.
pub origin-director :
    (target path : Text) (r : HttpRequest)
    → header_get x_origin_remote_addr (director target path r).header ≡ r.remote_addr
unfolding director ◌==◌
origin-director target path r =
    header_get-add x_origin_remote_addr x_origin_host _ _ refl
    ∙ header_get-add x_origin_remote_addr x_forwarded_host _ _ refl
    ∙ header_get-set x_origin_remote_addr r.remote_addr r.header

module _ (env : Env) where
  forward_to-refuses :
      (l : WithError Peer) (w : W env) (r : HttpRequest) (s : S env)
      → header_get x_origin_remote_addr r.header ≢ []
      → (e : Text) × (forward_to env l w r s ≡ (refused e, (w, s)))
  unfolding forward_to
  forward_to-refuses (leader, some e) w r s h = (e, refl)
  forward_to-refuses (leader, none) w r s h = elim (Bool-cases (http_addr leader.id == [])) [
    | inl nobody ↦ (no_leader, rw nobody refl)
    | inr somebody ↦ (forwarded_twice, rw (somebody, eq_false _ [] h) refl)
  ]

  -- A request that a node has forwarded is not forwarded again by the node that gets it, whichever it is
  -- and whatever leader it knows: the answer is an error, nothing is written yet and the surroundings
  -- are as they were.
  pub forward_to_leader-once :
      (target : Text) (r : HttpRequest) (w : W env) (s : S env)
      → r.remote_addr ≢ []
      → (e : Text) × (forward_to_leader env w (director target r.path r) s ≡ (refused e, (w, s)))
  unfolding forward_to_leader
  forward_to_leader-once target r w s h =
      forward_to-refuses (lead_server env s) w (director target r.path r) s
        (λ e. h (cc (origin-director target r.path r)))
