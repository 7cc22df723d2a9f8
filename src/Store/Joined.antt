-- ===== src/Store/Joined.antt =====
-- The membership that `Join` leaves.
use hraftd.Common.{
  ◌≡◌, ◌≢◌, ◌⊎◌, ◌↔◌, inl, inr, refl, sym, ap, ◌∙◌, true, false, List, arith, Bool-cases,
}
use hraftd.Common.Text.{Text, ◌==◌, eq_iff, eq_of_test}
use hraftd.World.{Server, voter, IsIn, IsUnique}
use hraftd.Store.Walking.{HasId, HasAddress, Walked}

abbrev pub joining : Text → Text → Server
joining id addr = record { suffrage = voter; id = id; address = addr }

module _ (id addr : Text) (l : List Server) where
  -- The membership that Join leaves: the node itself under its address, the servers that have neither
  -- its ID nor its address as before, and nobody else.
  pub record IsJoined (l' : List Server) : Type 0 where
    pub member : (srv : Server) × IsIn srv l' × HasId id srv × HasAddress addr srv
    pub others : (x : Server) → IsIn x l → x.id ≢ id → x.address ≢ addr → IsIn x l'
    pub no_more :
        (x : Server)
        → IsIn x l'
        → (HasId id x × HasAddress addr x) ⊎ (IsIn x l × (x.id ≢ id) × (x.address ≢ addr))

module _ {id addr : Text} {l : List Server} where
  pub Joined_already :
      {c : List Server} (srv : Server)
      → IsUnique l
      → IsIn srv l
      → IsIn srv c
      → HasId id srv
      → HasAddress addr srv
      → Walked id addr l true c
      → IsJoined id addr l c
  Joined_already {c} srv unique at here has_id has_addr w = record {
    member = (srv, here, has_id, has_addr);
    others = w.others;
    no_more = λ x at_x. elim (Bool-cases (x.id == id)) [
      | inl same ↦
          let e = unique x srv (w.sub x at_x) at (inl (eq_of_test x.id id same ∙ sym has_id)) in
          inl (rw e has_id, rw e has_addr)
      | inr other_id ↦ elim (Bool-cases (x.address == addr)) [
        | inl same ↦
            let e =
              unique x srv (w.sub x at_x) at
                (inr (eq_of_test x.address addr same ∙ sym has_addr)) in
            inl (rw e has_id, rw e has_addr)
        | inr other ↦ inr (
          w.sub x at_x,
          (λ e. ground (arith, eq_iff x.id id)),
          λ e. ground (arith, eq_iff x.address addr),
        )
      ]
    ];
  }

  pub Joined_added :
      {c l' : List Server}
      → Walked id addr l false c
      → ((x : Server) → IsIn x c → (x.id ≢ id) × (x.address ≢ addr))
      → ((x : Server) → IsIn x l' ↔ ((x ≡ joining id addr) ⊎ (IsIn x c × (x.id ≢ id))))
      → IsJoined id addr l l'
  Joined_added w clean added = record {
    member = (joining id addr, (added (joining id addr)).1 (inl refl), refl, refl);
    others = λ x at not_id not_addr. (added x).1 (inr (w.others x at not_id not_addr, not_id));
    no_more = λ x at. elim ((added x).0 at) [
      | inl e ↦ inl (ap (λ (y : Server). y.id) e, ap (λ (y : Server). y.address) e)
      | inr (old, not_id) ↦ inr (w.sub x old, not_id, (clean x old).1)
    ];
  }
