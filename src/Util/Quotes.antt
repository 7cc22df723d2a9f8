-- ===== src/Util/Quotes.antt =====
-- What `Jsonify4Print` (util.go) leaves of the quotes.
use hraftd.Common.{ℕ, ◌≡◌, refl, ap, ◌∙◌, [], ◌∷◌, arith}
use hraftd.Common.Text.{Text, Lacks}
use hraftd.World.{WithError}
use hraftd.Util.{remove_byte, remove_pair, jsonify, jsonify4print}

remove_byte-Lacks : (a : ℕ) (s : Text) → Lacks a (remove_byte a s)
unfolding remove_byte
remove_byte-Lacks a [] = tt
remove_byte-Lacks a (c ∷ s) = ground (arith, remove_byte-Lacks a s)

remove_byte-none : (a : ℕ) (s : Text) → Lacks a s → remove_byte a s ≡ s
unfolding remove_byte
remove_byte-none a [] h = refl
remove_byte-none a (c ∷ s) (h, hs) = ground (arith, remove_byte-none a s hs)

remove_pair-none : (a b : ℕ) (s : Text) → Lacks b s → remove_pair a b s ≡ s
unfolding remove_pair
remove_pair-none a b [] h = refl
remove_pair-none a b (c ∷ []) h = refl
remove_pair-none a b (c ∷ d ∷ s) (h, (k, hs)) = ground (arith, remove_pair-none a b (d ∷ s) (k, hs))

-- What is printed of a value has no quote in it, and is the value's JSON where that has none.
pub jsonify4print-Lacks :
    {A : Type 0} (marshal : A → WithError Text) (v : A)
    → Lacks b'"' (jsonify4print marshal v)
      × (Lacks b'"' (jsonify marshal v) → jsonify4print marshal v ≡ jsonify marshal v)
unfolding jsonify4print
jsonify4print-Lacks marshal v =
    let text = jsonify marshal v in
    (
      remove_byte-Lacks b'"' (remove_pair b'\\' b'"' text),
      λ h.
          ap (remove_byte b'"') (remove_pair-none b'\\' b'"' text h) ∙ remove_byte-none b'"' text h,
    )
