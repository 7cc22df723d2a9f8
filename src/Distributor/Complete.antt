-- ===== src/Distributor/Complete.antt =====
-- Every item is given to one peer.
use mathlib.Core.List.{Perm, perm_middle, map-append}
use mathlib.Core.List.Perm
use hraftd.Common.{
  ◌<◌, ◌≡◌, refl, ap, true, false, none, some, List, [], ◌∷◌, ◌++◌, map, arith, length, Bool-cases,
  inl, inr, Option-cases,
}
use hraftd.Common.Int.{ℤ, pos, negsuc, ◌+ℤ◌, ◌≈ℤ◌, int_laws}
use hraftd.Common.Text.{Text, ◌==◌, eq_iff}
use hraftd.Common.Map.{Map, lookup}
use hraftd.Address.{NodeId}
use hraftd.Model.{Peer}
use hraftd.Distributor.{
  Distributor, Kept, put, has_peer, keys_in, clean_keys_not_in, bump, make_peers_map, find_room,
  sticky_node, keep, place, distribute,
}
use hraftd.Distributor.Counts.{
  total, IsFair, total-bump, bump-IsFair, find_room-some, share_out-total,
}

-- The nodes of a sticky map are those of listed peers.
abbrev pub IsLive : List Peer → Map NodeId → Type 0
IsLive peers sticky =
    (id : Text) (node : NodeId) → lookup id sticky ≡ some node → has_peer node peers ≡ true

-- After `cleanKeysNotIn` no item sticks to a node that is not a peer.
pub keys_in-IsLive : (peers : List Peer) (m : Map NodeId) → IsLive peers (keys_in peers m)
unfolding keys_in lookup
keys_in-IsLive peers [] id node h = cc
keys_in-IsLive peers ((j, n) ∷ m) id node h = ground (arith, keys_in-IsLive peers m id node)

-- A sticky node is the empty text or a peer.
pub sticky_node-IsLive :
    (peers : List Peer) (sticky : Map NodeId) (id : Text)
    → IsLive peers sticky
    → (sticky_node id sticky == []) ≡ false
    → has_peer (sticky_node id sticky) peers ≡ true
unfolding sticky_node
sticky_node-IsLive peers sticky id live h = elim (Option-cases (lookup id sticky)) [
  | inl missing ↦ ground (arith, eq_iff [] [])
  | inr (node, found) ↦ ground (arith, live id node)
]

pub lookup_empty :
    (peers : List Peer) (k : NodeId) (c : ℤ)
    → lookup {V = ℤ} k [] ≡ some c
    → has_peer k peers ≡ true
unfolding lookup
lookup_empty peers k c e = cc

pub total_nil : total [] ≈ℤ pos 0
unfolding total
total_nil = refl

-- One round of each loop.
module _ {Item Out : Type 0} (item_id : Item → Text) (apply : NodeId → Item → Out) where
  pub keep_new :
      (sticky : Map NodeId) (item : Item) (items : List Item) (c : Map ℤ)
      → (sticky_node (item_id item) sticky == []) ≡ true
      → keep item_id apply sticky (item ∷ items) c
        ≡ (let r = keep item_id apply sticky items c in record r { new_items = item ∷ r.new_items })
  unfolding keep
  keep_new sticky item items c h = rw (h, keep)

  pub keep_old :
      (sticky : Map NodeId) (item : Item) (items : List Item) (c : Map ℤ)
      → (sticky_node (item_id item) sticky == []) ≡ false
      → keep item_id apply sticky (item ∷ items) c ≡ (
          let node = sticky_node (item_id item) sticky in
          let r = keep item_id apply sticky items (bump node (negsuc 0) c) in
          record r { results = apply node item ∷ r.results })
  unfolding keep
  keep_old sticky item items c h = rw (h, keep)

  pub place-some :
      (peers : List Peer) (item : Item) (items : List Item) (c : Map ℤ) (d : Distributor) (p : Peer)
      → find_room peers c ≡ some p
      → place item_id apply peers (item ∷ items) c d ≡ (
          let r =
            place item_id apply peers items (bump p.id (negsuc 0) c) (put (item_id item) p.id d) in
          (apply p.id item ∷ r.0, r.1))
  unfolding place
  place-some peers item items c d p h = rw (h, place)

  pub place-none :
      (peers : List Peer) (item : Item) (items : List Item) (c : Map ℤ) (d : Distributor)
      → find_room peers c ≡ none
      → place item_id apply peers (item ∷ items) c d ≡ place item_id apply peers items c d
  unfolding place
  place-none peers item items c d h = rw (h, place)

module _ {Item Out : Type 0} (item_id : Item → Text) (apply : NodeId → Item → Out)
    (item_of : Out → Item) (item_of-apply : (n : NodeId) (i : Item) → item_of (apply n i) ≡ i) where
  -- What the first loop leaves: the items are parted in two, and the counts are those of peers and
  -- sum up to what is new.
  pub record IsParted (peers : List Peer) (items : List Item) (c : Map ℤ) (k : Kept item_id apply)
      : Type 0 where
    pub fair : IsFair peers k.counts
    pub sum : total k.counts +ℤ pos (length items) ≈ℤ total c +ℤ pos (length k.new_items)
    pub parted : Perm (map item_of k.results ++ k.new_items) items

  pub keep-IsParted :
      (peers : List Peer) (sticky : Map NodeId) (items : List Item) (c : Map ℤ)
      → IsLive peers sticky
      → IsFair peers c
      → IsParted peers items c (keep item_id apply sticky items c)
  keep-IsParted peers sticky [] c live f =
      unfold keep in record { fair = f; sum = refl; parted = Perm.refl [] }
  keep-IsParted peers sticky (item ∷ items) c live f =
      elim (Bool-cases (sticky_node (item_id item) sticky == [])) [
        | inl new ↦
            let ih = keep-IsParted peers sticky items c live f in
            rw (keep_new item_id apply sticky item items c new) (record {
              fair = ih.fair;
              sum = (let s = ih.sum in omega int_laws);
              parted = Perm.trans (perm_middle _ _) (Perm.cons item ih.parted);
            })
        | inr old ↦
            let node = sticky_node (item_id item) sticky in
            let ih = keep-IsParted peers sticky items (bump node (negsuc 0) c) live (
              bump-IsFair peers node (negsuc 0) c
                (sticky_node-IsLive peers sticky (item_id item) live old) f) in
            rw (keep_old item_id apply sticky item items c old) (record {
              fair = ih.fair;
              sum = (let s = ih.sum in omega (int_laws, total-bump node (negsuc 0) c));
              parted = rw (item_of-apply node item) (Perm.cons item ih.parted);
            })
      ]

  -- With as much room as items, the second loop places each of them, in order.
  place_all :
      (peers : List Peer) (items : List Item) (c : Map ℤ) (d : Distributor)
      → IsFair peers c
      → total c ≈ℤ pos (length items)
      → map item_of (place item_id apply peers items c d).0 ≡ items
  place_all peers [] c d f h = unfold place in refl
  place_all peers (item ∷ items) c d f h =
      let (p, found, listed) = find_room-some peers c f (ground arith) in
      let ih =
        place_all peers items (bump p.id (negsuc 0) c) (put (item_id item) p.id d)
          (bump-IsFair peers p.id (negsuc 0) c listed f)
          (omega (int_laws, total-bump p.id (negsuc 0) c)) in
      rw (place-some item_id apply peers item items c d p found)
        (rw (item_of-apply p.id item) (ap (◌∷◌ item) ih))

  -- With at least one peer, whatever was sticky before, the distribution returns and its results
  -- are for the given items, each exactly once.
  pub distribute-perm :
      (peers : List Peer) (items : List Item) (d : Distributor)
      → 0 < length peers
      → (results : List Out) × ((distribute item_id apply peers items d).0 ≡ some results)
        × Perm (map item_of results) items
  distribute-perm peers items d h =
      let cleaned = clean_keys_not_in peers d in
      let (c, made, fair, sum) =
        share_out-total peers (length items) 0 [] h
          (record { distinct = tt; known = lookup_empty peers }) in
      let k = keep item_id apply cleaned.sticky_map items c in
      let live : IsLive peers cleaned.sticky_map =
        (unfold clean_keys_not_in in keys_in-IsLive peers d.sticky_map) in
      let parts = keep-IsParted peers cleaned.sticky_map items c live fair in
      let placed = (place item_id apply peers k.new_items k.counts cleaned).0 in
      let all_placed : map item_of placed ≡ k.new_items =
        place_all peers k.new_items k.counts cleaned parts.fair
          (let s = parts.sum in omega (int_laws, total_nil)) in
      (
        k.results ++ placed,
        unfold distribute make_peers_map in rw (made, distribute),
        rw map-append (rw all_placed parts.parted),
      )
