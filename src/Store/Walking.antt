-- ===== src/Store/Walking.antt =====
-- What the walk of `Join` keeps true of the configuration, server by server.
use hraftd.Common.{
  ◌≡◌, ◌≢◌, ◌⊎◌, ◌↔◌, inl, inr, refl, sym, ap, ◌∙◌, Bool, true, false, List, [], ◌∷◌,
}
use hraftd.Common.Text.{Text}
use hraftd.World.{Server, IsIn, IsUnique}

abbrev pub HasId : Text → Server → Type 0
HasId id x = x.id ≡ id

abbrev pub HasAddress : Text → Server → Type 0
HasAddress addr x = x.address ≡ addr

module _ (id addr : Text) (l : List Server) where
  -- The walk over the servers `l` has `rest` before it, and the configuration is `c` by now: only
  -- servers with one of the joining node's ID and address have been taken out.
  pub record Walking (rest c : List Server) : Type 0 where
    pub sub : (x : Server) → IsIn x c → IsIn x l
    pub others : (x : Server) → IsIn x l → x.id ≢ id → x.address ≢ addr → IsIn x c
    pub both : (x : Server) → IsIn x l → HasId id x → HasAddress addr x → IsIn x c
    pub ahead : (x : Server) → IsIn x c → HasId id x ⊎ HasAddress addr x → IsIn x rest
    pub listed : (x : Server) → IsIn x rest → IsIn x l

  -- The walk has ended without an error: either the node was found, or nothing of it is left.
  pub record Walked (already : Bool) (c : List Server) : Type 0 where
    pub sub : (x : Server) → IsIn x c → IsIn x l
    pub others : (x : Server) → IsIn x l → x.id ≢ id → x.address ≢ addr → IsIn x c
    pub ended :
        ((already ≡ true)
          × ((srv : Server) × IsIn srv l × IsIn srv c × HasId id srv × HasAddress addr srv))
        ⊎ ((already ≡ false) × ((x : Server) → IsIn x c → (x.id ≢ id) × (x.address ≢ addr)))

module _ {id addr : Text} {l : List Server} where
  pub Walking-Walked : {c : List Server} → Walking id addr l [] c → Walked id addr l false c
  Walking-Walked w = record {
    sub = w.sub;
    others = w.others;
    ended = inr (
      refl,
      λ x at. (λ e. elim (w.ahead x at (inl e)) [ ], λ e. elim (w.ahead x at (inr e)) [ ]),
    );
  }

  -- a server that has neither is passed over
  pub Walking-neither :
      (srv : Server) {rest c : List Server}
      → srv.id ≢ id
      → srv.address ≢ addr
      → Walking id addr l (srv ∷ rest) c
      → Walking id addr l rest c
  Walking-neither srv not_id not_addr w = record {
    sub = w.sub;
    others = w.others;
    both = w.both;
    ahead = λ x at m. elim (w.ahead x at m) [
      | inl here ↦ elim m [
        | inl e ↦ absurd (not_id (ap (λ (y : Server). y.id) here ∙ e))
        | inr e ↦ absurd (not_addr (ap (λ (y : Server). y.address) here ∙ e))
      ]
      | inr later ↦ later
    ];
    listed = λ x at. w.listed x (inr at);
  }

  -- a server that has one of the two, and not both, is taken out
  pub Walking-removed :
      (srv : Server) {rest c c' : List Server}
      → IsUnique l
      → HasId id srv ⊎ HasAddress addr srv
      → ¬ (HasId id srv × HasAddress addr srv)
      → ((x : Server) → IsIn x c' ↔ (IsIn x c × (x.id ≢ srv.id)))
      → Walking id addr l (srv ∷ rest) c
      → Walking id addr l rest c'
  Walking-removed srv unique one not_both gone w =
      let at_srv : IsIn srv l = w.listed srv (inl refl) in
      record {
        sub = λ x at. w.sub x ((gone x).0 at).0;
        others = λ x at not_id not_addr. (gone x).1 (
          w.others x at not_id not_addr,
          λ e. elim one [
            | inl same ↦ not_id (e ∙ same)
            | inr same ↦
                not_addr (ap (λ (y : Server). y.address) (unique x srv at at_srv (inl e)) ∙ same)
          ],
        );
        both = λ x at has_id has_addr. (gone x).1 (
          w.both x at has_id has_addr,
          λ e.
              let same = unique x srv at at_srv (inl e) in
              not_both (rw same at has_id, rw same at has_addr),
        );
        ahead = λ x at m. elim (w.ahead x ((gone x).0 at).0 m) [
          | inl here ↦ absurd (((gone x).0 at).1 (ap (λ (y : Server). y.id) (sym here)))
          | inr later ↦ later
        ];
        listed = λ x at. w.listed x (inr at);
      }
