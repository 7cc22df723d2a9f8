-- ===== src/Distributor/Counts.antt =====
-- The number of items that each peer may still take: the sum of the counts, and who has room.
use hraftd.Common.{
  ℕ, zero, suc, ◌+◌, ◌<◌, ◌%◌, ◌≡◌, refl, true, false, some, List, [], ◌∷◌, arith, length,
  get_elem?, Bool-cases, inl, inr,
}
use hraftd.Common.Int.{ℤ, pos, ◌+ℤ◌, ltb_ℤ, int_laws, +ℤ_parts, ◌≈ℤ◌}
use hraftd.Common.Text.{Text, ◌==◌, eq_iff}
use hraftd.Common.Map.{
  Map, lookup, insert, Distinct, lookup-insert, insert-Distinct, lookup_here, lookup_there,
  insert_here, insert_there,
}
use hraftd.Address.{NodeId}
use hraftd.Model.{Peer}
use hraftd.Distributor.{has_peer, count, bump, share_out, find_room}

-- The sum of all counts.
unfoldable pub total : Map ℤ → ℤ
total [] = pos 0
total ((k, c) ∷ m) = c +ℤ total m

pub total_cons : (k : Text) (c : ℤ) (m : Map ℤ) → total ((k, c) ∷ m) ≡ c +ℤ total m
unfolding total
total_cons k c m = refl

total-insert : (k : Text) (v : ℤ) (m : Map ℤ) → total (insert k v m) +ℤ count k m ≈ℤ total m +ℤ v
total-insert k v [] = unfold total insert count lookup in omega int_laws
total-insert k v ((j, c) ∷ m) = elim (Bool-cases (j == k)) [
  | inl same ↦
      rw (insert_here k j c m v same, total_cons)
        (unfold count in rw (lookup_here k j c m same, count) (rw total_cons (omega int_laws)))
  | inr other ↦
      let ih = total-insert k v m in
      let same_count : count k ((j, c) ∷ m) ≡ count k m =
        (unfold count in rw (lookup_there k j c m other, count)) in
      rw (insert_there k j c m v other, total_cons) (rw (same_count, total_cons) (omega int_laws))
]

pub total-bump : (k : NodeId) (by : ℤ) (m : Map ℤ) → total (bump k by m) ≈ℤ total m +ℤ by
unfolding bump
total-bump k by m = omega (int_laws, total-insert k (count k m +ℤ by) m)

-- Every count is that of a peer, and each peer has one.
pub record IsFair (peers : List Peer) (m : Map ℤ) : Type 0 where
  pub distinct : Distinct m
  pub known : (k : NodeId) (c : ℤ) → lookup k m ≡ some c → has_peer k peers ≡ true

pub bump-IsFair :
    (peers : List Peer) (k : NodeId) (by : ℤ) (m : Map ℤ)
    → has_peer k peers ≡ true
    → IsFair peers m
    → IsFair peers (bump k by m)
unfolding bump
bump-IsFair peers k by m h f = record {
  distinct = insert-Distinct k (count k m +ℤ by) m f.distinct;
  known =
      λ j c e. ground (arith, lookup-insert k j (count k m +ℤ by) m, eq_iff k j, f.known j c, h);
}

-- If the counts sum up to more than 0, one of them is more than 0.
positive_count :
    (m : Map ℤ)
    → Distinct m
    → ltb_ℤ (pos 0) (total m) ≡ true
    → (k : NodeId) × (c : ℤ) × (lookup k m ≡ some c) × (ltb_ℤ (pos 0) c ≡ true)
unfolding total lookup
positive_count [] d h = ground arith
positive_count ((j, c) ∷ m) (absent, d) h = elim (Bool-cases (ltb_ℤ (pos 0) c)) [
  | inl room ↦ (j, c, ground (arith, eq_iff j j), room)
  | inr full ↦
      let (k, c', found, room) = positive_count m d (ground (arith, +ℤ_parts c (total m))) in
      (k, c', ground (arith, eq_iff j k, found, absent), room)
]

-- A peer that is listed and has room is not overlooked, and what is found is listed.
find_room-listed :
    (peers : List Peer) (k : NodeId) (m : Map ℤ)
    → has_peer k peers ≡ true
    → ltb_ℤ (pos 0) (count k m) ≡ true
    → (p : Peer) × (find_room peers m ≡ some p) × (has_peer p.id peers ≡ true)
unfolding find_room has_peer
find_room-listed [] k m h room = cc
find_room-listed (p ∷ peers) k m h room = elim (Bool-cases (ltb_ℤ (pos 0) (count p.id m))) [
  | inl here ↦ (p, rw here, ground (arith, eq_iff p.id p.id))
  | inr full ↦
      let other : (p.id == k) ≡ false = ground (arith, eq_iff p.id k) in
      let (q, found, listed) = find_room-listed peers k m (ground arith) room in
      (q, ground arith, ground arith)
]

-- As long as items are left to place, some peer has room.
pub find_room-some :
    (peers : List Peer) (m : Map ℤ)
    → IsFair peers m
    → ltb_ℤ (pos 0) (total m) ≡ true
    → (p : Peer) × (find_room peers m ≡ some p) × (has_peer p.id peers ≡ true)
find_room-some peers m f h =
    let (k, c, found, room) = positive_count m f.distinct h in
    find_room-listed peers k m (f.known k c found) (unfold count in ground arith)

pub get_elem?-has_peer :
    (peers : List Peer) (i : ℕ) (p : Peer) → get_elem? peers i ≡ some p → has_peer p.id peers ≡ true
unfolding has_peer
get_elem?-has_peer [] i p h = cc
get_elem?-has_peer (q ∷ peers) zero p h = ground (arith, eq_iff q.id p.id)
get_elem?-has_peer (q ∷ peers) (suc i) p h = ground (arith, get_elem?-has_peer peers i p h)

pub get_elem?-in_range :
    (peers : List Peer) (i : ℕ) → i < length peers → (p : Peer) × (get_elem? peers i ≡ some p)
get_elem?-in_range [] i h = absurd (omega arith)
get_elem?-in_range (q ∷ peers) zero h = (q, refl)
get_elem?-in_range (q ∷ peers) (suc i) h = get_elem?-in_range peers i (omega arith)

-- With at least one peer, `makePeersMap` returns, and its counts sum up to the rounds that it made.
pub share_out-total :
    (peers : List Peer) (rounds i : ℕ) (m : Map ℤ)
    → 0 < length peers
    → IsFair peers m
    → (m' : Map ℤ) × (share_out peers rounds i m ≡ some m')
      × IsFair peers m'
      × (total m' ≈ℤ total m +ℤ pos rounds)
unfolding share_out
share_out-total peers zero i m h f = (m, refl, f, omega int_laws)
share_out-total peers (suc rounds) i m h f =
    let (p, at) = get_elem?-in_range peers (i % length peers) (grind arith) in
    let listed = get_elem?-has_peer peers (i % length peers) p at in
    let (m', done, fair, sum) =
      share_out-total peers rounds (i + 1) (bump p.id (pos 1) m) h
        (bump-IsFair peers p.id (pos 1) m listed f) in
    (m', rw (at, share_out) done, fair, omega (int_laws, total-bump p.id (pos 1) m))
