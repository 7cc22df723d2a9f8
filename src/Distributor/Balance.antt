-- ===== src/Distributor/Balance.antt =====
-- The counts that `Distribute` spends (distribute.go): none falls below 0, and each peer is given as
-- many new items as its count says.
use hraftd.Common.{
  ℕ, suc, ◌+◌, ◌≤◌, ◌≡◌, refl, subst, true, false, some, List, [], ◌∷◌, All, arith, length,
  if◌then◌else◌, Bool-cases, inl, inr,
}
use hraftd.Common.Int.{ℤ, pos, negsuc, pos_part, neg_part, ◌+ℤ◌, ltb_ℤ, int_laws, +ℤ_parts, ◌≈ℤ◌}
use hraftd.Common.Text.{Text, ◌==◌, eq_of_test}
use hraftd.Common.Map.{
  Map, lookup, insert, lookup-insert, lookup_here, lookup_there, insert_here, insert_there,
}
use hraftd.Address.{NodeId}
use hraftd.Model.{Peer}
use hraftd.Distributor.{Distributor, put, count, bump, find_room, place}
use hraftd.Distributor.Counts.{total, total_cons, total-bump, IsFair, bump-IsFair, find_room-some}
use hraftd.Distributor.Complete.{place-some, total_nil}

-- 1 for the peer that is meant, 0 for others.
abbrev hit : NodeId → NodeId → ℕ
hit node k = if node == k then 1 else 0

count_here : (k j : Text) (c : ℤ) (m : Map ℤ) → (j == k) ≡ true → count k ((j, c) ∷ m) ≡ c
unfolding count
count_here k j c m h = rw (lookup_here k j c m h, count) refl

count_there : (k j : Text) (c : ℤ) (m : Map ℤ) → (j == k) ≡ false → count k ((j, c) ∷ m) ≡ count k m
unfolding count
count_there k j c m h = rw (lookup_there k j c m h, count) refl

pub count-nil : (k : Text) → count k [] ≡ pos 0
unfolding count lookup
count-nil k = refl

count-insert :
    (node k : NodeId) (v : ℤ) (m : Map ℤ)
    → count k (insert node v m) ≡ (if node == k then v else count k m)
unfolding count
count-insert node k v m = elim (Bool-cases (node == k)) [
  | inl same ↦ rw (lookup-insert node k v m, same, count) refl
  | inr other ↦ rw (lookup-insert node k v m, other, count) refl
]

pub count-bump :
    (node k : NodeId) (by : ℤ) (m : Map ℤ)
    → count k (bump node by m) ≡ (if node == k then count node m +ℤ by else count k m)
unfolding bump
count-bump node k by m = count-insert node k (count node m +ℤ by) m

-- No count is below 0.
abbrev pub NonNeg : Map ℤ → Type 0
NonNeg = All (λ kv. neg_part kv.1 ≤ pos_part kv.1)

pub insert-NonNeg :
    (k : Text) (v : ℤ) (m : Map ℤ) → neg_part v ≤ pos_part v → NonNeg m → NonNeg (insert k v m)
insert-NonNeg k v [] h n = unfold insert in (h, tt)
insert-NonNeg k v ((j, c) ∷ m) h (at, n) = elim (Bool-cases (j == k)) [
  | inl same ↦ rw (insert_here k j c m v same) (h, n)
  | inr other ↦ rw (insert_there k j c m v other) (at, insert-NonNeg k v m h n)
]

total-NonNeg : (m : Map ℤ) → NonNeg m → neg_part (total m) ≤ pos_part (total m)
total-NonNeg [] n = omega (int_laws, total_nil)
total-NonNeg ((j, c) ∷ m) (at, n) =
    let rest = total-NonNeg m n in rw (total_cons j c m) (omega int_laws)

-- A count is not below 0, and not above the sum of all.
pub count-total :
    (k : Text) (m : Map ℤ)
    → NonNeg m
    → (neg_part (count k m) ≤ pos_part (count k m))
      × (pos_part (count k m) + neg_part (total m) ≤ pos_part (total m) + neg_part (count k m))
count-total k [] n = rw (count-nil k) (omega arith, omega (arith, total_nil))
count-total k ((j, c) ∷ m) (at, n) = elim (Bool-cases (j == k)) [
  | inl same ↦
      let rest = total-NonNeg m n in
      rw (count_here k j c m same, total_cons j c m) (at, omega int_laws)
  | inr other ↦
      let (low, high) = count-total k m n in
      rw (count_there k j c m other, total_cons j c m) (low, omega int_laws)
]

-- The counts after one more or one less for a peer, as numbers.
pub bumped_same :
    (node k : NodeId) (by : ℤ) (m : Map ℤ)
    → (node == k) ≡ true
    → count k (bump node by m) ≈ℤ count k m +ℤ by
bumped_same node k by m h = rw (count-bump node k by m, h) (rw (eq_of_test node k h) refl)

pub bumped_other :
    (node k : NodeId) (by : ℤ) (m : Map ℤ)
    → (node == k) ≡ false
    → count k (bump node by m) ≈ℤ count k m
bumped_other node k by m h = rw (count-bump node k by m, h) refl

find_room-room :
    (peers : List Peer) (c : Map ℤ) (p : Peer)
    → find_room peers c ≡ some p
    → ltb_ℤ (pos 0) (count p.id c) ≡ true
unfolding find_room
find_room-room [] c p h = cc
find_room-room (q ∷ peers) c p h = elim (Bool-cases (ltb_ℤ (pos 0) (count q.id c))) [
  | inl room ↦
      let same : q ≡ p = ground arith in
      subst (λ (x : Peer). ltb_ℤ (pos 0) (count x.id c) ≡ true) same room
  | inr full ↦ find_room-room peers c p (rw (full, find_room) at h)
]

module _ {Item Out : Type 0} (item_id : Item → Text) (apply : NodeId → Item → Out)
    (node_of : Out → NodeId)
    (node_of-apply : (n : NodeId) (i : Item) → node_of (apply n i) ≡ n) where
  -- How many of the results are for the node.
  abbrev pub given : NodeId → List Out → ℕ
  given k [] = 0
  given k (o ∷ os) = if node_of o == k then suc (given k os) else given k os

  -- The second loop gives each peer as many items as it has room for, if there are as many items as
  -- room.
  pub place-given :
      (peers : List Peer) (items : List Item) (c : Map ℤ) (d : Distributor) (k : NodeId)
      → IsFair peers c
      → NonNeg c
      → total c ≈ℤ pos (length items)
      → count k c ≈ℤ pos (given k (place item_id apply peers items c d).0)
  place-given peers [] c d k f n h =
      let (low, high) = count-total k c n in unfold place in omega arith
  place-given peers (item ∷ items) c d k f n h =
      let (p, found, listed) = find_room-some peers c f (ground arith) in
      let room = find_room-room peers c p found in
      let less = bump p.id (negsuc 0) c in
      let ih =
        place-given peers items less (put (item_id item) p.id d) k
          (bump-IsFair peers p.id (negsuc 0) c listed f)
          (unfold bump in
            insert-NonNeg p.id (count p.id c +ℤ negsuc 0) c
              (ground (arith, +ℤ_parts (count p.id c) (negsuc 0))) n)
          (omega (int_laws, total-bump p.id (negsuc 0) c)) in
      rw (place-some item_id apply peers item items c d p found, node_of-apply p.id item)
        (elim (Bool-cases (p.id == k)) [
          | inl mine ↦ rw mine (let b = bumped_same p.id k (negsuc 0) c mine in omega int_laws)
          | inr other ↦ rw other (let b = bumped_other p.id k (negsuc 0) c other in omega int_laws)
        ])
