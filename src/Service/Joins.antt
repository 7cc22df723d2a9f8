-- ===== src/Service/Joins.antt =====
-- POST /join on the leader (service_raft.go).
use hraftd.Common.{
  ◌≡◌, inl, inr, refl, sym, ap, ◌∙◌, Option, none, some, List, Bool-cases, Option-cases, ℕ,
}
use hraftd.Common.Text.{Text}
use hraftd.Common.Result.{ok}
use hraftd.Model.{RaftCluster, JoinRequest, fix_request}
use hraftd.Http.{HttpRequest}
use hraftd.World.{WithError, Server, IsRaft}
use hraftd.Env.{Env}
use hraftd.Store.Machine.{set}
use hraftd.Store.Membership.{join_node}
use hraftd.Store.Leader.{cluster}
use hraftd.Store.Joined.{IsJoined}
use hraftd.Store.Members.{join_node-IsJoined}
use hraftd.Store.Clusters.{cluster-servers}
use hraftd.Service.Answers.{done, decode_body, W, S}
use hraftd.Service.Rafts.{
  no_join_request, origin, save_seen, save_cluster, after_join, join_read, handle_join,
}

module _ (env : Env) (raft : IsRaft env.world) (now : S env → ℕ) where
  open env use {codecs, world}

  set-keeps :
      (k v : Text) (t : ℕ) (s : S env)
      → world.configuration (set env k v t s).1 ≡ world.configuration s
  set-keeps k v t s =
      unfold set in
      elim (Bool-cases (world.is_leader s)) [
        | inl h ↦ rw (h, set) (raft.proposed _ s)
        | inr h ↦ rw (h, set) refl
      ]

  save_seen-keeps :
      (x : WithError RaftCluster × S env)
      → world.configuration (save_seen env now x) ≡ world.configuration x.1
  unfolding save_seen
  save_seen-keeps ((c, some e), s) = refl
  save_seen-keeps ((c, none), s) = set-keeps _ _ (now s) s

  -- Saving the cluster leaves the configuration.
  pub save_cluster-keeps :
      (s : S env) (l : List Server)
      → world.configuration s ≡ ok l
      → world.configuration (save_cluster env now s) ≡ ok l
  unfolding save_cluster
  save_cluster-keeps s l conf =
      let (_, _, _, keeps) = cluster-servers env raft s l conf in
      save_seen-keeps (cluster env s) ∙ keeps ∙ conf

  module _ (w w' : W env) (s s' : S env) where
    after_join-done :
        (r : Option Text × S env)
        → after_join env now w r ≡ (done, (w', s'))
        → (r ≡ (none, r.1)) × (save_cluster env now r.1 ≡ s')
    unfolding after_join
    after_join-done (some e, t) h = absurd (cc)
    after_join-done (none, t) h = (refl, ap (λ x. x.1.1) h)

    -- What a request that was answered with success has done.
    abbrev JoinDone : Text → JoinRequest → Type 0
    JoinDone from m =
        (m' : JoinRequest) × (t : S env) × (fix_request from m ≡ some m')
        × (join_node env m'.node_id m'.addr s ≡ (none, t))
        × (save_cluster env now t ≡ s')

    join_read-fixed :
        (from : Text) (m m' : JoinRequest)
        → fix_request from m ≡ some m'
        → join_read env now from (m, none) w s
          ≡ after_join env now w (join_node env m'.node_id m'.addr s)
    unfolding join_read
    join_read-fixed from m m' h = rw (h, join_read) refl

    join_read-done :
        (from : Text) (d : WithError JoinRequest)
        → join_read env now from d w s ≡ (done, (w', s'))
        → JoinDone from d.0
    unfolding join_read
    join_read-done from (m, some e) h = absurd (cc)
    join_read-done from (m, none) h = elim (Option-cases (fix_request from m)) [
      | inl bad ↦ absurd (cc)
      | inr (m', fixed) ↦
          let r = join_node env m'.node_id m'.addr s in
          let h' : after_join env now w r ≡ (done, (w', s')) =
            sym (join_read-fixed from m m' fixed) ∙ h in
          let (joins, saved) = after_join-done r h' in (m', r.1, fixed, joins, saved)
    ]

    -- A request to join that is answered with success has made the node that it names, under the ID and
    -- the address that it is fixed to, a member of the cluster. The other servers that have neither
    -- are members as before, and there are no others.
    pub handle_join-IsJoined :
        (r : HttpRequest) (l : List Server) (conf : world.configuration s ≡ ok l)
        → handle_join env now w r s ≡ (done, (w', s'))
        → (m : JoinRequest) × (l' : List Server) × (fix_request
              (origin r)
              (decode_body codecs.join_request no_join_request r.body).0
            ≡ some m)
          × (world.configuration s' ≡ ok l')
          × IsJoined m.node_id m.addr l l'
    unfolding handle_join
    handle_join-IsJoined r l conf h =
        let d = decode_body codecs.join_request no_join_request r.body in
        let (m, t, fixed, joins, saved) = join_read-done (origin r) d h in
        let (l', conf', joined) = join_node-IsJoined env raft s t l conf m.node_id m.addr joins in
        (m, l', fixed, rw (← saved) (save_cluster-keeps t l' conf'), joined)
