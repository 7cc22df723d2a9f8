-- ===== src/Remote/Kept.antt =====
-- What the calls to other nodes leave alone: whatever does not change by a request over HTTP.
use hraftd.Common.{◌≡◌, refl, ◌∙◌, none, some, List, [], ◌∷◌, Bool-cases, Option-cases, inl, inr}
use hraftd.Common.Text.{Text, ◌==◌}
use hraftd.Common.Result.{Result-cases}
use hraftd.Address.{NodeId}
use hraftd.Model.{Rsp}
use hraftd.World.{WithError, Codec, Server, World}
use hraftd.Env.{Env}
use hraftd.Remote.{
  get_json, post_json, cluster_of, get_node_state, check_joined, joined, join, last_leader,
  try_join_leader,
}

module _ (w : World) {B : Type 0} (view : w.State → B)
    (of_get : (url : Text) (s : w.State) → view (w.http_get url s).1 ≡ view s) where
  pub get_json-kept :
      {A : Type 0} (codec : Codec A) (zero_value : A) (url : Text) (s : w.State)
      → view (get_json w codec zero_value url s).1 ≡ view s
  unfolding get_json
  get_json-kept codec zero_value url s = elim (Result-cases (w.http_get url s).0) [
    | inl (body, h) ↦ rw (h, get_json) (of_get url s)
    | inr (e, h) ↦ rw (h, get_json) (of_get url s)
  ]

module _ (env : Env) {B : Type 0} (view : env.world.State → B)
    (of_get : (url : Text) (s : env.world.State) → view (env.world.http_get url s).1 ≡ view s)
    (of_post : (url body : Text) (s : env.world.State)
      → view (env.world.http_post url body s).1 ≡ view s) where
  open env use {world}

  post_json-kept :
      {A : Type 0} (codec : Codec A) (zero_value : A) (url body : Text) (s : world.State)
      → view (post_json world codec zero_value url body s).1 ≡ view s
  unfolding post_json
  post_json-kept codec zero_value url body s = elim (Result-cases (world.http_post url body s).0) [
    | inl (answer, h) ↦ rw (h, post_json) (of_post url body s)
    | inr (e, h) ↦ rw (h, post_json) (of_post url body s)
  ]

  check_joined-kept : (node : NodeId) (s : world.State) → view (check_joined env node s).1 ≡ view s
  unfolding check_joined cluster_of
  check_joined-kept node s = elim (Option-cases (cluster_of env node s).0.1) [
    | inl h ↦ rw (h, check_joined) (get_json-kept world view of_get _ _ _ s)
    | inr (e, h) ↦ rw (h, check_joined) (get_json-kept world view of_get _ _ _ s)
  ]

  joined-kept :
      (node : NodeId) (r : WithError Rsp) (s : world.State) → view (joined env node r s).1 ≡ view s
  unfolding joined
  joined-kept node (r, some e) s = refl
  joined-kept node (r, none) s = elim (Bool-cases r.success) [
    | inl h ↦ rw h (check_joined-kept node s)
    | inr h ↦ rw h refl
  ]

  pub join-kept :
      (addr raft_addr : Text) (node : NodeId) (s : world.State)
      → view (join env addr raft_addr node s).1 ≡ view s
  unfolding join
  join-kept addr raft_addr node s = joined-kept node _ _ ∙ post_json-kept _ _ _ _ s

  last_leader-kept :
      (servers : List Server) (leader : NodeId) (s : world.State)
      → view (last_leader env servers leader s).1 ≡ view s
  unfolding last_leader get_node_state
  last_leader-kept [] leader s = refl
  last_leader-kept (server ∷ servers) leader s =
      last_leader-kept servers _ _ ∙ get_json-kept world view of_get _ _ _ s

  pub try_join_leader-kept :
      (servers : List Server) (s : world.State) → view (try_join_leader env servers s).1 ≡ view s
  unfolding try_join_leader
  try_join_leader-kept servers s =
      let kept = last_leader-kept servers [] s in
      elim (Bool-cases ((last_leader env servers [] s).0 == [])) [
        | inl nobody ↦ rw (nobody, try_join_leader) kept
        | inr somebody ↦ rw (somebody, try_join_leader) (join-kept _ _ _ _ ∙ kept)
      ]
