-- ===== src/Store/Members.antt =====
-- What `Join` and `Remove` do to the cluster's membership.
use hraftd.Common.{
  ◌≡◌, ◌≢◌, ◌⊎◌, ◌↔◌, inl, inr, refl, sym, ◌∙◌, Bool, true, false, Option, none, some, List, [],
  ◌∷◌, arith, Bool-cases, Option-cases,
}
use hraftd.Common.Text.{Text, ◌==◌, eq_iff, eq_of_test}
use hraftd.Common.Result.{Result, ok}
use hraftd.World.{Server, IsIn, IsUnique, IsRaft}
use hraftd.Env.{Env}
use hraftd.Store.Membership.{walk, visit, take_out, finish_join, join_node, after_adding, remove}
use hraftd.Store.PeersFile.{write_config_entries, write_peers_json}
use hraftd.Store.Walking.{
  HasId, HasAddress, Walking, Walked, Walking-Walked, Walking-neither, Walking-removed,
}
use hraftd.Store.Joined.{IsJoined, Joined_already, Joined_added}
use hraftd.Store.Walks.{
  walk-goes_on, walk-stops, walk-fails, visit-both, visit-neither, visit-id, visit-address,
  take_out-removed, take_out-fails, after_adding-added, after_adding-fails, after_removal-removed,
  after_removal-fails, join_node-leads, remove-leads,
}

-- Writing peers.json leaves the configuration.
configuration-write :
    (env : Env) (raft : IsRaft env.world) (s : env.world.State)
    → env.world.configuration (write_config_entries env s).1 ≡ env.world.configuration s
unfolding write_config_entries write_peers_json
configuration-write env raft s = raft.written _ s

module _ (env : Env) (raft : IsRaft env.world) (id addr : Text) (l : List Server)
    (unique : IsUnique l) where
  open env use {world}

  -- What the walk returns, where it returns no error.
  abbrev Outcome : Option Text × (Bool × world.State) → Type 0
  Outcome (some e, (already, s)) = Unit
  Outcome (none, (already, s)) =
      (c : List Server) × (world.configuration s ≡ ok c) × Walked id addr l already c

  abbrev fn : Server → Bool × world.State → Result Bool × (Bool × world.State)
  fn = visit env id addr

  -- A server that is taken out: the walk goes on from what is left, or ends with the error.
  out_step :
      (srv : Server) (rest c : List Server) (s : world.State)
      → world.configuration s ≡ ok c
      → HasId id srv ⊎ HasAddress addr srv
      → ¬ (HasId id srv × HasAddress addr srv)
      → Walking id addr l (srv ∷ rest) c
      → fn srv (false, s) ≡ take_out env id addr false (world.remove_server srv.id s)
      → ((c' : List Server) (s' : world.State)
          → world.configuration s' ≡ ok c'
          → Walking id addr l rest c'
          → Outcome (walk fn rest (false, s')))
      → Outcome (walk fn (srv ∷ rest) (false, s))
  out_step srv rest c s conf one not_both w visited ih =
      let r = world.remove_server srv.id s in
      elim (Option-cases (world.remove_server srv.id s).0) [
        | inl gone ↦
            let (c', conf', same) =
              raft.removed srv.id s r.1 c conf (λ i. (gone i, (world.remove_server srv.id s).1)) in
            rw
              (walk-goes_on fn srv rest (false, s) (false, r.1)
                (visited ∙ take_out-removed env id addr false r gone))
              (ih c' r.1 conf' (Walking-removed srv unique one not_both same w))
        | inr (e, bad) ↦
            rw
              (walk-fails fn srv rest (false, s) (false, r.1) _
                (visited ∙ take_out-fails env id addr false r e bad))
              tt
      ]

  walk-Outcome :
      (rest c : List Server) (s : world.State)
      → world.configuration s ≡ ok c
      → Walking id addr l rest c
      → Outcome (walk fn rest (false, s))
  walk-Outcome [] c s conf w = unfold walk in (c, conf, Walking-Walked w)
  walk-Outcome (srv ∷ rest) c s conf w =
      let ih = walk-Outcome rest in
      elim (Bool-cases (srv.id == id)) [
        | inl same_id ↦ elim (Bool-cases (srv.address == addr)) [
          | inl same_addr ↦
              let has_id = eq_of_test srv.id id same_id in
              let has_addr = eq_of_test srv.address addr same_addr in
              let at = w.listed srv (inl refl) in
              rw
                (walk-stops fn srv rest (false, s) (true, s)
                  (visit-both env id addr srv false s same_id same_addr))
                (
                  c,
                  conf,
                  record {
                    sub = w.sub;
                    others = w.others;
                    ended = inl (refl, (srv, at, w.both srv at has_id has_addr, has_id, has_addr));
                  },
                )
          | inr other ↦
              out_step srv rest c s conf (inl (eq_of_test srv.id id same_id))
                (λ b. ground (arith, eq_iff srv.address addr)) w
                (visit-id env id addr srv false s same_id other) ih
        ]
        | inr other_id ↦ elim (Bool-cases (srv.address == addr)) [
          | inl same_addr ↦
              out_step srv rest c s conf (inr (eq_of_test srv.address addr same_addr))
                (λ b. ground (arith, eq_iff srv.id id)) w
                (visit-address env id addr srv false s other_id same_addr) ih
          | inr other ↦
              rw
                (walk-goes_on fn srv rest (false, s) (false, s)
                  (visit-neither env id addr srv false s other_id other))
                (ih c s conf (
                  Walking-neither srv (λ e. ground (arith, eq_iff srv.id id))
                    (λ e. ground (arith, eq_iff srv.address addr)) w))
        ]
      ]

  finish-IsJoined :
      (r : Option Text × (Bool × world.State)) (s' : world.State)
      → Outcome r
      → finish_join env id addr r ≡ (none, s')
      → (l' : List Server) × (world.configuration s' ≡ ok l') × IsJoined id addr l l'
  finish-IsJoined (some e, (already, s)) s' o h = unfold finish_join in cc
  finish-IsJoined (none, (true, s)) s' (c, conf, w) h =
      let e : s ≡ s' = (unfold finish_join in cc) in
      elim w.ended [
        | inl (_, (srv, at, here, has_id, has_addr)) ↦
            (c, rw (← e) conf, Joined_already srv unique at here has_id has_addr w)
        | inr (f, _) ↦ cc
      ]
  finish-IsJoined (none, (false, s)) s' (c, conf, w) h =
      let r = world.add_voter id addr s in
      let h' : after_adding env id addr r ≡ (none, s') = (unfold finish_join in h) in
      elim w.ended [
        | inl (f, _) ↦ cc
        | inr (_, clean) ↦ elim (Option-cases (world.add_voter id addr s).0) [
          | inr (e, bad) ↦ cc (after_adding-fails env id addr false r e bad)
          | inl added ↦
              let (l', conf', same) =
                raft.added id addr s r.1 c conf (λ i. (added i, (world.add_voter id addr s).1)) in
              let e : (write_config_entries env r.1).1 ≡ s' =
                cc (after_adding-added env id addr false r added) in
              (l', rw (← e) (configuration-write env raft r.1 ∙ conf'), Joined_added w clean same)
        ]
      ]

module _ (env : Env) (raft : IsRaft env.world) (s s' : env.world.State) (l : List Server)
    (conf : env.world.configuration s ≡ ok l) where
  -- A Join that returns no error has made the node, under its ID and its address, a member of the
  -- cluster. Servers that have neither its ID nor its address are members as before, and there are no
  -- others: what stood in its way, with its ID or its address, is out.
  pub join_node-IsJoined :
      (id addr : Text)
      → join_node env id addr s ≡ (none, s')
      → (l' : List Server) × (env.world.configuration s' ≡ ok l') × IsJoined id addr l l'
  join_node-IsJoined id addr h =
      let unique = raft.unique s l conf in
      elim (Bool-cases (env.world.is_leader s)) [
        | inr follower ↦ unfold join_node in cc
        | inl leader ↦
            let h' : finish_join env id addr (walk (visit env id addr) l (false, s)) ≡ (none, s') =
              sym (join_node-leads env s leader id addr l conf) ∙ h in
            finish-IsJoined env raft id addr l unique _ s'
              (walk-Outcome env raft id addr l unique l l s conf (record {
                sub = λ x at. at;
                others = λ x at _ _. at;
                both = λ x at _ _. at;
                ahead = λ x at _. at;
                listed = λ x at. at;
              }))
              h'
      ]

  -- A Remove that returns no error has taken out the server with the given ID, and no other.
  pub remove-members :
      (id : Text)
      → remove env id s ≡ (none, s')
      → (l' : List Server) × (env.world.configuration s' ≡ ok l')
        × ((x : Server) → IsIn x l' ↔ (IsIn x l × (x.id ≢ id)))
  remove-members id h = elim (Bool-cases (env.world.is_leader s)) [
    | inr follower ↦ unfold remove in cc
    | inl leader ↦
        let r = env.world.remove_server id s in
        elim (Option-cases (env.world.remove_server id s).0) [
          | inr (e, bad) ↦ cc (remove-leads env s leader id, after_removal-fails env r e bad)
          | inl gone ↦
              let (l', conf', same) =
                raft.removed id s r.1 l conf (λ i. (gone i, (env.world.remove_server id s).1)) in
              let e : (write_config_entries env r.1).1 ≡ s' =
                cc (remove-leads env s leader id, after_removal-removed env r gone) in
              (l', rw (← e) (configuration-write env raft r.1 ∙ conf'), same)
        ]
  ]
