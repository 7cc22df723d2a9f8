-- ===== src/Distributor/Sticky.antt =====
-- An item stays with its node as long as that node is a peer.
use hraftd.Common.{
  ◌<◌, ◌≡◌, ◌≢◌, refl, subst, ap, true, false, none, some, List, [], ◌∷◌, ◌++◌, arith, length, All,
  Any, Bool-cases, inl, inr, Option-cases, ◌∙◌,
}
use hraftd.Common.Int.{ℤ, negsuc}
use hraftd.Common.Text.{Text, ◌==◌, eq_iff, eq_false}
use hraftd.Common.Map.{Map, lookup, lookup-insert}
use hraftd.Address.{NodeId}
use hraftd.Model.{Peer}
use hraftd.Distributor.{
  Distributor, put, has_peer, keys_in, clean_keys_not_in, bump, make_peers_map, find_room,
  sticky_node, keep, place, distribute, share_out,
}
use hraftd.Distributor.Counts.{share_out-total}
use hraftd.Distributor.Complete.{lookup_empty, keep_new, keep_old, place-some, place-none}

-- `cleanKeysNotIn` leaves the keys of live nodes.
lookup-keys_in :
    (peers : List Peer) (m : Map NodeId) (id : Text) (node : NodeId)
    → lookup id m ≡ some node
    → has_peer node peers ≡ true
    → lookup id (keys_in peers m) ≡ some node
unfolding lookup keys_in
lookup-keys_in peers [] id node h live = cc
lookup-keys_in peers ((j, n) ∷ m) id node h live = ground (arith, lookup-keys_in peers m id node)

pub Any-append_left {ℓ} :
    {A : Type ℓ} (P : A → Type 0) (xs ys : List A) → Any P xs → Any P (xs ++ ys)
Any-append_left P [] ys h = elim h [ ]
Any-append_left P (x ∷ xs) ys (inl p) = inl p
Any-append_left P (x ∷ xs) ys (inr h) = inr (Any-append_left P xs ys h)

length-pos_of_has_peer :
    (node : NodeId) (peers : List Peer) → has_peer node peers ≡ true → 0 < length peers
unfolding has_peer
length-pos_of_has_peer node [] h = cc
length-pos_of_has_peer node (p ∷ peers) h = omega arith

lookup-put_other :
    (j id : Text) (node : NodeId) (d : Distributor)
    → (j == id) ≡ false
    → lookup id (put j node d).sticky_map ≡ lookup id d.sticky_map
unfolding put
lookup-put_other j id node d h = rw (lookup-insert, h) refl

keys_in_no_peers : (m : Map NodeId) → keys_in [] m ≡ []
unfolding keys_in has_peer
keys_in_no_peers [] = refl
keys_in_no_peers ((id, node) ∷ m) = keys_in_no_peers m

module _ {Item Out : Type 0} (item_id : Item → Text) (apply : NodeId → Item → Out) where
  -- The id is that of an item with no node.
  abbrev pub IsNew : Map NodeId → Item → Type 0
  IsNew sticky item = (sticky_node (item_id item) sticky == []) ≡ true

  pub keep-IsNew :
      (sticky : Map NodeId) (items : List Item) (c : Map ℤ)
      → All (IsNew sticky) (keep item_id apply sticky items c).new_items
  keep-IsNew sticky [] c = unfold keep in tt
  keep-IsNew sticky (item ∷ items) c = elim (Bool-cases (sticky_node (item_id item) sticky == [])) [
    | inl new ↦ rw (keep_new item_id apply sticky item items c new) (new, keep-IsNew sticky items c)
    | inr old ↦
        rw (keep_old item_id apply sticky item items c old)
          (keep-IsNew sticky items (bump (sticky_node (item_id item) sticky) (negsuc 0) c))
  ]

  -- The results of the first loop hold each sticky item with its node.
  pub keep-results :
      (sticky : Map NodeId) (items : List Item) (c : Map ℤ) (item : Item)
      → (sticky_node (item_id item) sticky == []) ≡ false
      → Any (λ i. i ≡ item) items
      → Any
          (λ o. o ≡ apply (sticky_node (item_id item) sticky) item)
          (keep item_id apply sticky items c).results
  keep-results sticky [] c item old h = elim h [ ]
  keep-results sticky (i ∷ items) c item old (inl same) =
      rw same (rw (keep_old item_id apply sticky item items c old) (inl refl))
  keep-results sticky (i ∷ items) c item old (inr later) =
      elim (Bool-cases (sticky_node (item_id i) sticky == [])) [
        | inl new ↦
            rw (keep_new item_id apply sticky i items c new)
              (keep-results sticky items c item old later)
        | inr also ↦ rw (keep_old item_id apply sticky i items c also) (
            inr (
              keep-results sticky items (bump (sticky_node (item_id i) sticky) (negsuc 0) c) item
                old later))
      ]

  -- The second loop writes the keys of the items that it is given, and no other.
  pub place-sticky :
      (peers : List Peer) (items : List Item) (c : Map ℤ) (d : Distributor) (id : Text)
      → All (λ i. (item_id i == id) ≡ false) items
      → lookup id (place item_id apply peers items c d).1.sticky_map ≡ lookup id d.sticky_map
  place-sticky peers [] c d id h = unfold place in refl
  place-sticky peers (i ∷ items) c d id (other, h) = elim (Option-cases (find_room peers c)) [
    | inl full ↦
        rw (place-none item_id apply peers i items c d full) (place-sticky peers items c d id h)
    | inr (p, room) ↦ rw (place-some item_id apply peers i items c d p room) (
        place-sticky peers items (bump p.id (negsuc 0) c) (put (item_id i) p.id d) id h
        ∙ lookup-put_other (item_id i) id p.id d other)
  ]

  pub new-ne :
      (sticky : Map NodeId) (id : Text) (items : List Item)
      → (sticky_node id sticky == []) ≡ false
      → All (IsNew sticky) items
      → All (λ i. (item_id i == id) ≡ false) items
  new-ne sticky id [] old h = tt
  new-ne sticky id (i ∷ items) old (new, h) =
      (ground (arith, eq_iff (item_id i) id), new-ne sticky id items old h)

  -- An item whose node, not the empty text, is a peer is given to that node again, and the
  -- distributor goes on to remember it.
  pub distribute-sticky :
      (peers : List Peer) (items : List Item) (d : Distributor) (item : Item) (node : NodeId)
      → Any (λ i. i ≡ item) items
      → lookup (item_id item) d.sticky_map ≡ some node
      → has_peer node peers ≡ true
      → node ≢ []
      → (results : List Out) × ((distribute item_id apply peers items d).0 ≡ some results)
        × Any (λ o. o ≡ apply node item) results
        × (lookup (item_id item) (distribute item_id apply peers items d).1.sticky_map ≡ some node)
  distribute-sticky peers items d item node listed sticks live some_node =
      let cleaned = clean_keys_not_in peers d in
      let (c, made, _, _) =
        share_out-total peers (length items) 0 [] (length-pos_of_has_peer node peers live)
          (record { distinct = tt; known = lookup_empty peers }) in
      let k = keep item_id apply cleaned.sticky_map items c in
      let placed = place item_id apply peers k.new_items k.counts cleaned in
      let still : lookup (item_id item) cleaned.sticky_map ≡ some node =
        (unfold clean_keys_not_in in
          lookup-keys_in peers d.sticky_map (item_id item) node sticks live) in
      let same : sticky_node (item_id item) cleaned.sticky_map ≡ node =
        (unfold sticky_node in rw (still, sticky_node)) in
      let old : (sticky_node (item_id item) cleaned.sticky_map == []) ≡ false =
        rw same (eq_false node [] some_node) in
      (
        k.results ++ placed.0,
        unfold distribute make_peers_map in rw (made, distribute),
        Any-append_left _ k.results placed.0 (
            subst (λ n. Any (λ o. o ≡ apply n item) k.results) same
              (keep-results cleaned.sticky_map items c item old listed)),
        unfold distribute make_peers_map in
            rw (made, distribute)
              (place-sticky peers k.new_items k.counts cleaned (item_id item) (
                  new-ne cleaned.sticky_map (item_id item) k.new_items old
                    (keep-IsNew cleaned.sticky_map items c))
                ∙ still),
      )

  -- With no peer and something to distribute, the call panics, all items having been forgotten.
  pub distribute-no_peers :
      (item : Item) (items : List Item) (d : Distributor)
      → distribute item_id apply [] (item ∷ items) d ≡ (none, record { sticky_map = [] })
  unfolding distribute make_peers_map clean_keys_not_in share_out
  distribute-no_peers item items d =
      ap (λ m. (none, record { sticky_map = m })) (keys_in_no_peers d.sticky_map)
