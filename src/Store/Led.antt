-- ===== src/Store/Led.antt =====
-- `LeadServer` finds the server of the leader (store.go).
use hraftd.Common.{
  ◌≡◌, ◌≢◌, refl, sym, ap, ◌∙◌, true, false, none, List, [], ◌∷◌, Bool-cases, inl, inr,
}
use hraftd.Common.Text.{Text, ◌==◌, eq_false, eq_of_test, ne_of_test}
use hraftd.Common.Result.{ok}
use hraftd.Model.{Peer, no_peer}
use hraftd.World.{Server, IsIn, IsUnique, IsRaft}
use hraftd.Env.{Env}
use hraftd.Store.Membership.{walk, walk_raft_servers}
use hraftd.Store.Leader.{see_leader, found_leader, lead_server}

module _ (env : Env) where
  open env use {world}

  -- a server as LeadServer returns it
  abbrev pub leading : Server → Peer
  leading srv = record {
    address = srv.address;
    id = srv.id;
    state = world.leader_name;
    suffrage = [];
  }

  module _ (leader : Text) (srv : Server) (rest : List Server) (peer : Peer) where
    see_leader-here :
        (leader == srv.address) ≡ true → see_leader env leader srv peer ≡ (ok false, leading srv)
    unfolding see_leader
    see_leader-here h = rw h refl

    see_leader-on :
        (leader == srv.address) ≡ false → see_leader env leader srv peer ≡ (ok true, peer)
    unfolding see_leader
    see_leader-on h = rw h refl

    walk-here :
        (leader == srv.address) ≡ true
        → walk (see_leader env leader) (srv ∷ rest) peer ≡ (none, leading srv)
    unfolding walk
    walk-here h = rw (see_leader-here h, walk) (ap (λ r. (none, r.1)) (see_leader-here h))

    walk-on :
        (leader == srv.address) ≡ false
        → walk (see_leader env leader) (srv ∷ rest) peer ≡ walk (see_leader env leader) rest peer
    unfolding walk
    walk-on h =
        rw (see_leader-on h, walk)
          (ap (λ r. walk (see_leader env leader) rest r.1) (see_leader-on h))

  walk-leading :
      (l rest : List Server) (srv : Server)
      → IsUnique l
      → IsIn srv l
      → ((x : Server) → IsIn x rest → IsIn x l)
      → IsIn srv rest
      → walk (see_leader env srv.address) rest no_peer ≡ (none, leading srv)
  walk-leading l [] srv unique at sub found = elim found [ ]
  walk-leading l (x ∷ rest) srv unique at sub found = elim (Bool-cases (srv.address == x.address)) [
    | inl same ↦
        let is_srv : x ≡ srv =
          unique x srv (sub x (inl refl)) at (inr (sym (eq_of_test srv.address x.address same))) in
        walk-here srv.address x rest no_peer same ∙ ap (λ y. (none, leading y)) is_srv
    | inr other ↦ walk-on srv.address x rest no_peer other ∙ elim found [
      | inl here ↦
          absurd
            (ne_of_test srv.address x.address other (ap (λ (y : Server). y.address) (sym here)))
      | inr later ↦ walk-leading l rest srv unique at (λ y h. sub y (inr h)) later
    ]
  ]

  -- Where raft knows a leader, and the configuration has its server, LeadServer returns that server.
  pub lead_server-leading :
      (raft : IsRaft world) (s : world.State) (l : List Server) (srv : Server)
      → world.configuration s ≡ ok l
      → IsIn srv l
      → world.leader_addr s ≡ srv.address
      → srv.address ≢ []
      → srv.id ≢ []
      → lead_server env s ≡ (leading srv, none)
  unfolding lead_server
  lead_server-leading raft s l srv configured listed leads address named =
      let walked : walk_raft_servers env (see_leader env srv.address) s no_peer
          ≡ (none, leading srv) =
        (unfold walk_raft_servers in
          rw (configured, walk_raft_servers)
            (walk-leading l l srv (raft.unique s l configured) listed (λ x h. h) listed)) in
      let named_test : found_leader env (none, leading srv) ≡ (leading srv, none) =
        (unfold found_leader in rw (eq_false srv.id [] named) refl) in
      rw (leads, eq_false srv.address [] address) (ap (found_leader env) walked ∙ named_test)
