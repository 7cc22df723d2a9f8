-- ===== src/Distributor/Given.antt =====
-- The loops of `Distribute` (distribute.go): a new item is given to a peer, and remembered.
use hraftd.Common.{
  ◌≡◌, refl, ap, true, false, some, List, [], ◌∷◌, arith, length, All, Any, Bool-cases, inl, inr,
  ◌∙◌,
}
use hraftd.Common.Int.{ℤ, pos, negsuc, ◌≈ℤ◌, int_laws}
use hraftd.Common.Text.{Text, ◌==◌, eq_refl}
use hraftd.Common.Map.{Map, lookup, lookup-insert}
use hraftd.Address.{NodeId}
use hraftd.Model.{Peer}
use hraftd.Distributor.{Distributor, put, has_peer, bump, sticky_node, keep, place}
use hraftd.Distributor.Counts.{total, IsFair, total-bump, bump-IsFair, find_room-some}
use hraftd.Distributor.Complete.{keep_new, keep_old, place-some}
use hraftd.Distributor.Sticky.{place-sticky}

lookup-put :
    (id : Text) (node : NodeId) (d : Distributor) → lookup id (put id node d).sticky_map ≡ some node
unfolding put
lookup-put id node d = rw (lookup-insert id id node d.sticky_map, eq_refl id) refl

module _ {Item Out : Type 0} (item_id : Item → Text) (apply : NodeId → Item → Out) where
  -- No two of the items have one ID.
  abbrev pub IsApart : List Item → Type 0
  IsApart [] = Unit
  IsApart (i ∷ is) = All (λ j. (item_id j == item_id i) ≡ false) is × IsApart is

  keep-All :
      (P : Item → Type 0) (sticky : Map NodeId) (items : List Item) (c : Map ℤ)
      → All P items
      → All P (keep item_id apply sticky items c).new_items
  keep-All P sticky [] c h = unfold keep in tt
  keep-All P sticky (i ∷ items) c (p, h) =
      elim (Bool-cases (sticky_node (item_id i) sticky == [])) [
        | inl new ↦
            rw (keep_new item_id apply sticky i items c new) (p, keep-All P sticky items c h)
        | inr old ↦
            rw (keep_old item_id apply sticky i items c old)
              (keep-All P sticky items (bump (sticky_node (item_id i) sticky) (negsuc 0) c) h)
      ]

  pub keep-IsApart :
      (sticky : Map NodeId) (items : List Item) (c : Map ℤ)
      → IsApart items
      → IsApart (keep item_id apply sticky items c).new_items
  keep-IsApart sticky [] c h = unfold keep in tt
  keep-IsApart sticky (i ∷ items) c (apart, h) =
      elim (Bool-cases (sticky_node (item_id i) sticky == [])) [
        | inl new ↦ rw (keep_new item_id apply sticky i items c new) (
          keep-All (λ j. (item_id j == item_id i) ≡ false) sticky items c apart,
          keep-IsApart sticky items c h,
        )
        | inr old ↦
            rw (keep_old item_id apply sticky i items c old)
              (keep-IsApart sticky items (bump (sticky_node (item_id i) sticky) (negsuc 0) c) h)
      ]

  -- The first loop leaves an item that has no node to the second one.
  pub keep-listed :
      (sticky : Map NodeId) (items : List Item) (c : Map ℤ) (item : Item)
      → (sticky_node (item_id item) sticky == []) ≡ true
      → Any (λ i. i ≡ item) items
      → Any (λ i. i ≡ item) (keep item_id apply sticky items c).new_items
  keep-listed sticky [] c item is_new h = elim h [ ]
  keep-listed sticky (i ∷ items) c item is_new (inl same) =
      rw same (rw (keep_new item_id apply sticky item items c is_new) (inl refl))
  keep-listed sticky (i ∷ items) c item is_new (inr later) =
      elim (Bool-cases (sticky_node (item_id i) sticky == [])) [
        | inl new ↦
            rw (keep_new item_id apply sticky i items c new)
              (inr (keep-listed sticky items c item is_new later))
        | inr old ↦ rw (keep_old item_id apply sticky i items c old) (
            keep-listed sticky items (bump (sticky_node (item_id i) sticky) (negsuc 0) c) item
              is_new later)
      ]

  -- The item was given to the node, which is a peer, and the distributor remembers it.
  pub record Given (peers : List Peer) (item : Item) (results : List Out) (d : Distributor)
      (node : NodeId) : Type 0 where
    pub result : Any (λ o. o ≡ apply node item) results
    pub remembered : lookup (item_id item) d.sticky_map ≡ some node
    pub live : has_peer node peers ≡ true

  pub place-Given :
      (peers : List Peer) (items : List Item) (c : Map ℤ) (d : Distributor) (item : Item)
      → IsFair peers c
      → total c ≈ℤ pos (length items)
      → IsApart items
      → Any (λ i. i ≡ item) items
      → let r = place item_id apply peers items c d in
        (node : NodeId) × Given peers item r.0 r.1 node
  place-Given peers [] c d item f h apart listed = elim listed [ ]
  place-Given peers (i ∷ items) c d item f h (apart, rest) at =
      let (p, found, listed) = find_room-some peers c f (ground arith) in
      let less = bump p.id (negsuc 0) c in
      let d' = put (item_id i) p.id d in
      rw (place-some item_id apply peers i items c d p found) (elim at [
        | inl here ↦ (
          p.id,
          record {
            result = inl (ap (apply p.id) here);
            remembered = rw (← here) (
                place-sticky item_id apply peers items less d' (item_id i) apart
                ∙ lookup-put (item_id i) p.id d);
            live = listed;
          },
        )
        | inr later ↦
            let (node, g) =
              place-Given peers items less d' item (bump-IsFair peers p.id (negsuc 0) c listed f)
                (omega (int_laws, total-bump p.id (negsuc 0) c)) rest later in
            (node, record { result = inr g.result; remembered = g.remembered; live = g.live })
      ])
