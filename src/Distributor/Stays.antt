-- ===== src/Distributor/Stays.antt =====
-- Two calls of `Distribute` (distribute.go): once given to a node, an item is given to it again, as
-- long as that node is a peer.
use hraftd.Common.{
  ◌<◌, ◌≡◌, ◌≢◌, refl, subst, true, false, some, List, [], ◌∷◌, ◌++◌, arith, length, All, Any,
  Bool-cases, inl, inr, Option-cases, ◌∙◌,
}
use hraftd.Common.Int.{int_laws}
use hraftd.Common.Text.{Text, ◌==◌, eq_refl, eq_of_test}
use hraftd.Common.Map.{Map, lookup}
use hraftd.Address.{NodeId}
use hraftd.Model.{Peer}
use hraftd.Distributor.{
  Distributor, has_peer, clean_keys_not_in, make_peers_map, sticky_node, keep, place, distribute,
}
use hraftd.Distributor.Counts.{share_out-total}
use hraftd.Distributor.Complete.{
  IsLive, keys_in-IsLive, sticky_node-IsLive, lookup_empty, total_nil, keep-IsParted,
}
use hraftd.Distributor.Sticky.{
  Any-append_left, keep-IsNew, keep-results, place-sticky, new-ne, distribute-sticky,
}
use hraftd.Distributor.Given.{IsApart, Given, keep-IsApart, keep-listed, place-Given}

Any-append_right {ℓ} : {A : Type ℓ} (P : A → Type 0) (xs ys : List A) → Any P ys → Any P (xs ++ ys)
Any-append_right P [] ys h = h
Any-append_right P (x ∷ xs) ys h = inr (Any-append_right P xs ys h)

-- A node that is a peer has a name, if all peers have.
has_peer-named :
    (node : NodeId) (peers : List Peer)
    → All (λ (p : Peer). p.id ≢ []) peers
    → has_peer node peers ≡ true
    → node ≢ []
unfolding has_peer
has_peer-named node [] named h = cc
has_peer-named node (p ∷ peers) (name, named) h = elim (Bool-cases (p.id == node)) [
  | inl same ↦ subst (λ n. n ≢ []) (eq_of_test p.id node same) name
  | inr other ↦ has_peer-named node peers named (rw other at h)
]

lookup-sticky_node :
    (id : Text) (m : Map NodeId)
    → (sticky_node id m == []) ≡ false
    → lookup id m ≡ some (sticky_node id m)
unfolding sticky_node
lookup-sticky_node id m h = elim (Option-cases (lookup id m)) [
  | inl missing ↦ ground (arith, eq_refl [])
  | inr (node, found) ↦ rw (found, sticky_node) refl
]

module _ {Item Out : Type 0} (item_id : Item → Text) (apply : NodeId → Item → Out)
    (item_of : Out → Item) (item_of-apply : (n : NodeId) (i : Item) → item_of (apply n i) ≡ i) where
  distribute-Given :
      (peers : List Peer) (items : List Item) (d : Distributor) (item : Item)
      → 0 < length peers
      → IsApart item_id apply items
      → Any (λ i. i ≡ item) items
      → (results : List Out) × ((distribute item_id apply peers items d).0 ≡ some results)
        × ((node : NodeId) × Given item_id apply peers item results
              (distribute item_id apply peers items d).1
              node)
  distribute-Given peers items d item some_peer apart listed =
      let cleaned = clean_keys_not_in peers d in
      let (c, made, fair, sum) =
        share_out-total peers (length items) 0 [] some_peer
          (record { distinct = tt; known = lookup_empty peers }) in
      let k = keep item_id apply cleaned.sticky_map items c in
      let live : IsLive peers cleaned.sticky_map =
        (unfold clean_keys_not_in in keys_in-IsLive peers d.sticky_map) in
      let parts =
        keep-IsParted item_id apply item_of item_of-apply peers cleaned.sticky_map items c live
          fair in
      let placed = place item_id apply peers k.new_items k.counts cleaned in
      let returned : distribute item_id apply peers items d
          ≡ (some (k.results ++ placed.0), placed.1) =
        (unfold distribute make_peers_map in rw (made, distribute) refl) in
      let node = sticky_node (item_id item) cleaned.sticky_map in
      rw returned (
        k.results ++ placed.0,
        refl,
        elim (Bool-cases (node == [])) [
          | inr old ↦ (
            node,
            record {
              result =
                  Any-append_left _ k.results placed.0
                    (keep-results item_id apply cleaned.sticky_map items c item old listed);
              remembered =
                  place-sticky item_id apply peers k.new_items k.counts cleaned (item_id item) (
                    new-ne item_id apply cleaned.sticky_map (item_id item) k.new_items old
                      (keep-IsNew item_id apply cleaned.sticky_map items c))
                  ∙ lookup-sticky_node (item_id item) cleaned.sticky_map old;
              live = sticky_node-IsLive peers cleaned.sticky_map (item_id item) live old;
            },
          )
          | inl new ↦
              let (n, g) =
                place-Given item_id apply peers k.new_items k.counts cleaned item parts.fair
                  (let s = parts.sum in omega (int_laws, total_nil))
                  (keep-IsApart item_id apply cleaned.sticky_map items c apart)
                  (keep-listed item_id apply cleaned.sticky_map items c item new listed) in
              (
                n,
                record {
                  result = Any-append_right _ k.results placed.0 g.result;
                  remembered = g.remembered;
                  live = g.live;
                },
              )
        ],
      )

  -- With at least one peer, each with a name, and items of which no two have one ID, each item is
  -- given to a peer, whatever was sticky before; and the next distribution, of whatever items and to
  -- whatever peers, gives it to the same node again if it is among its items and the node is among
  -- its peers.
  pub distribute-stays :
      (peers : List Peer) (items : List Item) (d : Distributor) (item : Item)
      → 0 < length peers
      → All (λ (p : Peer). p.id ≢ []) peers
      → IsApart item_id apply items
      → Any (λ i. i ≡ item) items
      → (results : List Out) × ((distribute item_id apply peers items d).0 ≡ some results)
        × ((node : NodeId) × Any (λ o. o ≡ apply node item) results
            × (has_peer node peers ≡ true)
            × ((peers' : List Peer) (items' : List Item)
                → Any (λ i. i ≡ item) items'
                → has_peer node peers' ≡ true
                → let d' = (distribute item_id apply peers items d).1 in
                  (results' : List Out) × ((distribute item_id apply peers' items' d').0
                    ≡ some results')
                  × Any (λ o. o ≡ apply node item) results'))
  distribute-stays peers items d item some_peer named apart listed =
      let (results, returned, (node, g)) =
        distribute-Given peers items d item some_peer apart listed in
      (
        results,
        returned,
        (
          node,
          g.result,
          g.live,
          λ peers' items' again live'.
              let d' = (distribute item_id apply peers items d).1 in
              let (results', returned', given', _) =
                distribute-sticky item_id apply peers' items' d' item node again g.remembered live'
                  (has_peer-named node peers named g.live) in
              (results', returned', given'),
        ),
      )
