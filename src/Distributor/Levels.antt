-- ===== src/Distributor/Levels.antt =====
-- How many items each peer gets of a first distribution (distribute.go).
use native.Mathlib.Nat.{mul-add-mod_self_right, mod-eq_of_lt, suc-mul}
use hraftd.Common.{
  ℕ, zero, suc, ◌+◌, ◌*◌, ◌%◌, ◌<◌, ◌≡◌, refl, ◌≢◌, sym, ap, ◌∙◌, false, some, List, [], ◌∷◌, arith,
  length, ltb, get_elem?, if◌then◌else◌, Bool-cases, inl, inr,
}
use hraftd.Common.Int.{ℤ, pos, ◌+ℤ◌, int_laws, +ℤ_parts, ◌≈ℤ◌}
use hraftd.Common.Text.{Text, ◌==◌, eq_of_test, eq_iff}
use hraftd.Common.Map.{Map, lookup}
use hraftd.Address.{NodeId}
use hraftd.Model.{Peer}
use hraftd.Distributor.{
  new_distributor, count, bump, share_out, make_peers_map, sticky_node, keep, place, keys_in,
  clean_keys_not_in, distribute,
}
use hraftd.Distributor.Counts.{share_out-total, get_elem?-in_range}
use hraftd.Distributor.Complete.{lookup_empty, keep_new, total_nil}
use hraftd.Distributor.Balance.{
  count-nil, NonNeg, insert-NonNeg, count-total, bumped_same, bumped_other, given, place-given,
}

-- No two peers share an ID.
abbrev pub IsApart : List Peer → Type 0
IsApart peers =
    (i j : ℕ) (p p' : Peer)
    → get_elem? peers i ≡ some p
    → get_elem? peers j ≡ some p'
    → p.id ≡ p'.id
    → i ≡ j

-- What the peer at place `j` gets of so many full rounds and of a last one that ends in front of `s`.
abbrev pub level : ℕ → ℕ → ℕ → ℕ
level rounds s j = rounds + (if ltb j s then 1 else 0)

some-inj : {x y : Peer} → some x ≡ some y → x ≡ y
some-inj h = cc

level_up : (rounds s j : ℕ) → j ≡ s → level rounds (suc s) j ≡ suc (level rounds s j)
level_up rounds s j h = ground arith

level_other : (rounds s j : ℕ) → j ≢ s → level rounds (suc s) j ≡ level rounds s j
level_other rounds s j h = ground arith

level_wrap : (rounds s j : ℕ) → j < suc s → level rounds (suc s) j ≡ level (suc rounds) 0 j
level_wrap rounds s j h = ground arith

get_elem?-lt : {A : Type 0} (xs : List A) (j : ℕ) (x : A) → get_elem? xs j ≡ some x → j < length xs
get_elem?-lt [] j x h = cc
get_elem?-lt (y ∷ xs) zero x h = omega arith
get_elem?-lt (y ∷ xs) (suc j) x h = (let ih = get_elem?-lt xs j x h in omega arith)

up-NonNeg : (k : NodeId) (m : Map ℤ) → NonNeg m → NonNeg (bump k (pos 1) m)
unfolding bump
up-NonNeg k m n =
    let (low, high) = count-total k m n in
    insert-NonNeg k (count k m +ℤ pos 1) m (ground (arith, +ℤ_parts (count k m) (pos 1))) n

module _ (peers : List Peer) (apart : IsApart peers) where
  abbrev HasLevels : ℕ → ℕ → Map ℤ → Type 0
  HasLevels q s m =
      (j : ℕ) (p : Peer) → get_elem? peers j ≡ some p → count p.id m ≈ℤ pos (level q s j)

  differ :
      (p p' : Peer) (j s : ℕ)
      → get_elem? peers s ≡ some p
      → get_elem? peers j ≡ some p'
      → (p.id == p'.id) ≡ false
      → j ≢ s
  differ p p' j s at at' other e =
      let same : p ≡ p' = some-inj (sym at ∙ ap (get_elem? peers) (sym e) ∙ at') in
      ground (arith, eq_iff p.id p'.id, ap (λ (x : Peer). x.id) same)

  wrapped :
      (q s : ℕ) (m : Map ℤ) → suc s ≡ length peers → HasLevels q (suc s) m → HasLevels (suc q) 0 m
  wrapped q s m whole h j p at =
      let old = h j p at in
      let inside = get_elem?-lt peers j p at in
      let same = level_wrap q s j (omega arith) in omega arith

  bump-HasLevels :
      (q s : ℕ) (p : Peer) (m : Map ℤ)
      → get_elem? peers s ≡ some p
      → HasLevels q s m
      → HasLevels q (suc s) (bump p.id (pos 1) m)
  bump-HasLevels q s p m at h j p' at' = elim (Bool-cases (p.id == p'.id)) [
    | inl same ↦
        let e : s ≡ j = apart s j p p' at at' (eq_of_test p.id p'.id same) in
        let b = bumped_same p.id p'.id (pos 1) m same in
        let old = h j p' at' in let up = level_up q s j (sym e) in omega int_laws
    | inr other ↦
        let b = bumped_other p.id p'.id (pos 1) m other in
        let old = h j p' at' in
        let same_level = level_other q s j (λ e. differ p p' j s at at' other e) in omega int_laws
  ]

  share_out-levels :
      (rounds q s : ℕ) (m m' : Map ℤ)
      → s < length peers
      → NonNeg m
      → HasLevels q s m
      → share_out peers rounds (q * length peers + s) m ≡ some m'
      → NonNeg m'
        × ((q' s' : ℕ) × (s' < length peers)
            × (q * length peers + s + rounds ≡ q' * length peers + s')
            × HasLevels q' s' m')
  unfolding share_out
  share_out-levels zero q s m m' lt n h e =
      let same : m ≡ m' = cc in rw (← same) (n, (q, s, lt, omega arith, h))
  share_out-levels (suc rounds) q s m m' lt n h e =
      let turn : (q * length peers + s) % length peers ≡ s =
        mul-add-mod_self_right q (length peers) s ∙ mod-eq_of_lt lt in
      let (p, at) = get_elem?-in_range peers s lt in
      let found : get_elem? peers ((q * length peers + s) % length peers) ≡ some p =
        ap (get_elem? peers) turn ∙ at in
      let more = bump p.id (pos 1) m in
      let levels = bump-HasLevels q s p m at h in
      let n' : NonNeg more = up-NonNeg p.id m n in
      let e' : share_out peers rounds (q * length peers + s + 1) more ≡ some m' =
        rw (found, share_out) at e in
      elim (Bool-cases (ltb (suc s) (length peers))) [
        | inl inside ↦
            let at_next : q * length peers + s + 1 ≡ q * length peers + suc s = omega arith in
            let (n1, (q', s', lt', sum, levels')) =
              share_out-levels rounds q (suc s) more m' (ground arith) n' levels
                (rw at_next at e') in
            (n1, (q', s', lt', omega arith, levels'))
        | inr around ↦
            let whole : suc s ≡ length peers = ground arith in
            let at_next : q * length peers + s + 1 ≡ suc q * length peers + 0 =
              (let m = suc-mul q (length peers) in omega arith) in
            let (n1, (q', s', lt', sum, levels')) =
              share_out-levels rounds (suc q) 0 more m' (omega arith) n'
                (wrapped q s more whole levels) (rw at_next at e') in
            (n1, (q', s', lt', (let m = suc-mul q (length peers) in omega arith), levels'))
      ]

module _ {Item Out : Type 0} (item_id : Item → Text) (apply : NodeId → Item → Out)
    (node_of : Out → NodeId)
    (node_of-apply : (n : NodeId) (i : Item) → node_of (apply n i) ≡ n) where
  keep-fresh :
      (items : List Item) (c : Map ℤ)
      → keep item_id apply [] items c ≡ record { results = []; new_items = items; counts = c }
  keep-fresh [] c = unfold keep in refl
  keep-fresh (item ∷ items) c =
      keep_new item_id apply [] item items c (unfold sticky_node lookup ◌==◌ in refl)
      ∙ rw (keep-fresh items c) refl

  distributed :
      (peers : List Peer) (items : List Item) (c : Map ℤ)
      → share_out peers (length items) 0 [] ≡ some c
      → (distribute item_id apply peers items new_distributor).0
        ≡ some (place item_id apply peers items c new_distributor).0
  unfolding distribute make_peers_map new_distributor clean_keys_not_in keys_in
  distributed peers items c made = rw (made, distribute) (rw (keep-fresh items c) refl)

  -- A distributor that has not distributed before gives each of at least one peers, no two of which
  -- share an ID, its even part of the items: the number of items divided by that of the peers, and
  -- one more for as many peers, from the first on, as the division leaves over.
  pub distribute-level :
      (peers : List Peer) (items : List Item)
      → 0 < length peers
      → IsApart peers
      → (results : List Out) × ((distribute item_id apply peers items new_distributor).0
          ≡ some results)
        × ((q s : ℕ) × (s < length peers)
            × (length items ≡ q * length peers + s)
            × ((j : ℕ) (p : Peer)
                → get_elem? peers j ≡ some p
                → given item_id apply node_of node_of-apply p.id results ≡ level q s j))
  distribute-level peers items h apart =
      let (c, made, fair, sum) =
        share_out-total peers (length items) 0 [] h
          (record { distinct = tt; known = lookup_empty peers }) in
      let start : 0 ≡ 0 * length peers + 0 = omega arith in
      let none_yet : HasLevels peers apart 0 0 [] = λ j p at. rw (count-nil p.id) (ground arith) in
      let (n, (q, s, lt, parts, levels)) =
        share_out-levels peers apart (length items) 0 0 [] c h tt none_yet
          (ap (λ i. share_out peers (length items) i []) (sym start) ∙ made) in
      let placed = place item_id apply peers items c new_distributor in
      (
        placed.0,
        distributed peers items c made,
        (
          q,
          s,
          lt,
          omega arith,
          λ j p at.
              let exact =
                place-given item_id apply node_of node_of-apply peers items c new_distributor p.id
                  fair n (omega (int_laws, total_nil)) in
              let even = levels j p at in let (low, high) = count-total p.id c n in omega arith,
        ),
      )
