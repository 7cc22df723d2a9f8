-- ===== src/Distributor.antt =====
-- distribute.go: items are spread over the peers, each staying where it was put before.
-- The checks by reflection of `checkReceiverType` and `checkDataType` stand in Reflected; behind them,
-- here, an item has an ID, and `apply` is what the receiver's `Distribute` makes of a fresh value.
pub mod Counts
pub mod Complete
pub mod Sticky
pub mod Tests
pub mod Reflected
pub mod Balance
pub mod Levels
pub mod Given
pub mod Stays
use hraftd.Common.{
  ℕ, zero, suc, ◌+◌, ◌%◌, Bool, true, false, Option, none, some, List, [], ◌∷◌, ◌++◌, length,
  get_elem?, if◌then◌else◌,
}
use hraftd.Common.Int.{ℤ, pos, negsuc, ◌+ℤ◌, ltb_ℤ}
use hraftd.Common.Text.{Text, ◌==◌}
use hraftd.Common.Map.{Map, lookup, insert}
use hraftd.Address.{NodeId}
use hraftd.Model.{Peer}

pub record Distributor : Type 0 where
  pub sticky_map : Map NodeId

-- NewDistributor
unfoldable pub new_distributor : Distributor
new_distributor = record { sticky_map = [] }

-- Distributor.Put
unfoldable pub put : Text → NodeId → Distributor → Distributor
put id node d = record d { sticky_map = insert id node d.sticky_map }

-- Distributor.CleanSticky
unfoldable pub clean_sticky : Distributor → Distributor
clean_sticky d = record d { sticky_map = [] }

-- `peersMap[nodeID]` of cleanKeysNotIn
unfoldable pub has_peer : NodeId → List Peer → Bool
has_peer node [] = false
has_peer node (p ∷ peers) = if p.id == node then true else has_peer node peers

-- the second loop of cleanKeysNotIn
unfoldable pub keys_in : List Peer → Map NodeId → Map NodeId
keys_in peers [] = []
keys_in peers ((id, node) ∷ m) =
    let rest = keys_in peers m in if has_peer node peers then (id, node) ∷ rest else rest

-- Distributor.cleanKeysNotIn
unfoldable pub clean_keys_not_in : List Peer → Distributor → Distributor
clean_keys_not_in peers d = record d { sticky_map = keys_in peers d.sticky_map }

-- Reading a missing key of a map[NodeID]int gives 0.
unfoldable pub count : NodeId → Map ℤ → ℤ
count node m = elim (lookup node m) [ none ↦ pos 0 | some c ↦ c ]

-- m[node] += by
unfoldable pub bump : NodeId → ℤ → Map ℤ → Map ℤ
bump node by m = insert node (count node m +ℤ by) m

-- The loop of makePeersMap, `rounds` rounds from round `i` on. With no peers `i % 0` panics.
unfoldable pub share_out : List Peer → ℕ → ℕ → Map ℤ → Option (Map ℤ)
share_out peers zero i m = some m
share_out peers (suc rounds) i m = elim (get_elem? peers (i % length peers)) [
  | none ↦ none
  | some p ↦ share_out peers rounds (i + 1) (bump p.id (pos 1) m)
]

-- makePeersMap
unfoldable pub make_peers_map : List Peer → ℕ → Option (Map ℤ)
make_peers_map peers data_len = share_out peers data_len 0 []

-- The first peer that may take one more item.
unfoldable pub find_room : List Peer → Map ℤ → Option Peer
find_room [] counts = none
find_room (p ∷ peers) counts =
    if ltb_ℤ (pos 0) (count p.id counts) then some p else find_room peers counts

-- d.StickyMap[id], "" where there is none
unfoldable pub sticky_node : Text → Map NodeId → NodeId
sticky_node id sticky = elim (lookup id sticky) [ none ↦ [] | some node ↦ node ]

module _ {Item Out : Type 0} (item_id : Item → Text) (apply : NodeId → Item → Out) where
  -- What the first loop of Distribute leaves: results, items that are new, and the counts.
  pub record Kept : Type 0 where
    pub results : List Out
    pub new_items : List Item
    pub counts : Map ℤ

  -- the first loop of Distribute: items keep their node
  unfoldable pub keep : Map NodeId → List Item → Map ℤ → Kept
  keep sticky [] counts = record { results = []; new_items = []; counts = counts }
  keep sticky (item ∷ items) counts =
      let node = sticky_node (item_id item) sticky in
      let new = (let r = keep sticky items counts in record r { new_items = item ∷ r.new_items }) in
      let old =
        (let r = keep sticky items (bump node (negsuc 0) counts) in
          record r { results = apply node item ∷ r.results }) in
      if node == [] then new else old

  -- the second loop of Distribute: a new item goes to the first peer with room, if there is one
  unfoldable pub place : List Peer → List Item → Map ℤ → Distributor → List Out × Distributor
  place peers [] counts d = ([], d)
  place peers (item ∷ items) counts d = elim (find_room peers counts) [
    | none ↦ place peers items counts d
    | some p ↦
        let (results, d') =
          place peers items (bump p.id (negsuc 0) counts) (put (item_id item) p.id d) in
        (apply p.id item ∷ results, d')
  ]

  -- Distributor.Distribute; `none` is the panic of makePeersMap
  unfoldable pub distribute : List Peer → List Item → Distributor → Option (List Out) × Distributor
  distribute peers items d =
      let cleaned = clean_keys_not_in peers d in
      elim (make_peers_map peers (length items)) [
        | none ↦ (none, cleaned)
        | some counts ↦
            let kept = keep cleaned.sticky_map items counts in
            let (placed, d') = place peers kept.new_items kept.counts cleaned in
            (some (kept.results ++ placed), d')
      ]
