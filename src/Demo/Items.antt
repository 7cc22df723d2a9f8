-- ===== src/Demo/Items.antt =====
-- What a node's dealer for "rigconf" sees of the items that the leader's demo proposes.
use hraftd.Common.{◌≡◌, refl, ◌∙◌, List, [], ◌∷◌, ◌++◌, if◌then◌else◌, Bool-cases, inl, inr}
use hraftd.Common.Text.{Text, ◌==◌}
use hraftd.Address.{NodeId}
use hraftd.Model.{Peer}
use hraftd.Demo.{RigConfItem, me_items, items_of, all_items}

-- The peers with the ID.
abbrev pub named : NodeId → List Peer → List Peer
named node [] = []
named node (p ∷ peers) = if p.id == node then p ∷ named node peers else named node peers

me_items-append :
    (node : NodeId) (items more : List RigConfItem)
    → me_items node (items ++ more) ≡ me_items node items ++ me_items node more
unfolding me_items
me_items-append node [] more = refl
me_items-append node (i ∷ items) more = elim (Bool-cases (i.node_id == node)) [
  | inl mine ↦ rw (mine, me_items-append node items more) refl
  | inr other ↦ rw (other, me_items-append node items more) refl
]

me_items-own :
    (node id : NodeId) (time : Text) (items : List RigConfItem)
    → me_items node (items_of time id items) ≡ (if id == node then items_of time id items else [])
unfolding me_items items_of
me_items-own node id time [] = elim (Bool-cases (id == node)) [
  | inl mine ↦ rw mine refl
  | inr other ↦ rw other refl
]
me_items-own node id time (i ∷ items) = elim (Bool-cases (id == node)) [
  | inl mine ↦ rw (me_items-own node id time items, mine) refl
  | inr other ↦ rw (me_items-own node id time items, other) refl
]

-- Of the items that the demo makes for all peers, the dealer of a node keeps those that were made for
-- the peers with the node's ID, all of them and in their order.
pub me_items-all_items :
    (node : NodeId) (time : Text) (fake : Peer → List RigConfItem) (peers : List Peer)
    → me_items node (all_items time fake peers) ≡ all_items time fake (named node peers)
unfolding me_items all_items
me_items-all_items node time fake [] = refl
me_items-all_items node time fake (p ∷ peers) =
    me_items-append node (items_of time p.id (fake p)) (all_items time fake peers)
    ∙ rw (me_items-own node p.id time (fake p), me_items-all_items node time fake peers)
        (elim (Bool-cases (p.id == node)) [ inl mine ↦ rw mine refl | inr other ↦ rw other refl ])
