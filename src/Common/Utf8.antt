-- ===== src/Common/Utf8.antt =====
-- Which texts are UTF-8, as package unicode/utf8 has it: what JSON can write and read back.
use hraftd.Common.Tests.{eqb, leb, if◌then◌else◌}
use hraftd.Common.Lists.{All}
use Prim.Native.Nat.{ℕ, ◌-◌, ◌≤◌}
use mathlib.Core.Path.{◌≡◌, refl, sym, ◌∙◌}
use mathlib.Core.Logic.{inl, inr}
use mathlib.Core.Bool.{Bool, true, false, ◌&&◌}
use mathlib.Core.Option.{Option, none, some}
use mathlib.Core.List.{[], ◌∷◌}
use native.Mathlib.Omega.{arith}
use hraftd.Common.Tests.{Bool-cases}
use hraftd.Common.Text.{Text, ◌==◌, eq_of_test}
use hraftd.Common.Map.{Map, lookup, lookup-nil, lookup_here, lookup_there}

-- how many bytes of a character are still to come, and between which bounds the next one has to be
record Expected : Type 0 where
  more : ℕ
  low : ℕ
  high : ℕ

abbrev follow : ℕ → Expected
follow n = record { more = n; low = 128; high = 191 }

abbrev between : ℕ → ℕ → ℕ → Bool
between low high b = leb low b && leb b high

-- what the first byte of a character asks for
abbrev lead : ℕ → Option Expected
lead b =
    if leb b 127
    then some (follow 0)
    else if between 0xc2 0xdf b
    then some (follow 1)
    else if eqb b 0xe0
    then some (record { more = 2; low = 160; high = 191 })
    else if eqb b 0xed
    then some (record { more = 2; low = 128; high = 159 })
    else if between 0xe1 0xef b
    then some (follow 2)
    else if eqb b 0xf0
    then some (record { more = 3; low = 144; high = 191 })
    else if between 0xf1 0xf3 b
    then some (follow 3)
    else if eqb b 0xf4
    then some (record { more = 3; low = 128; high = 143 })
    else none

abbrev next : Expected → ℕ → Option Expected
next e b =
    if eqb e.more 0
    then lead b
    else if between e.low e.high b
    then some (follow (e.more - 1))
    else none

abbrev utf8_from : Expected → Text → Bool
utf8_from e [] = eqb e.more 0
utf8_from e (b ∷ t) = elim (next e b) [ none ↦ false | some e' ↦ utf8_from e' t ]

-- utf8.Valid
abbrev pub is_utf8 : Text → Bool
is_utf8 t = utf8_from (follow 0) t

abbrev pub IsUtf8 : Text → Type 0
IsUtf8 t = is_utf8 t ≡ true

-- The keys and values of a map are UTF-8.
abbrev pub IsUtf8Map : Map Text → Type 0
IsUtf8Map m = (k v : Text) → lookup k m ≡ some v → IsUtf8 k × IsUtf8 v

pub ascii-IsUtf8 : (t : Text) → All (λ b. b ≤ 127) t → IsUtf8 t
ascii-IsUtf8 [] h = refl
ascii-IsUtf8 (b ∷ t) (small, h) =
    let plain : next (follow 0) b ≡ some (follow 0) = ground arith in
    rw (plain, utf8_from) (ascii-IsUtf8 t h)

pub pairs-IsUtf8Map :
    (m : Map Text) → All (λ (p : Text × Text). IsUtf8 p.0 × IsUtf8 p.1) m → IsUtf8Map m
pairs-IsUtf8Map [] h k v found = ground (arith, found, lookup-nil {V = Text} k)
pairs-IsUtf8Map ((j, u) ∷ m) ((key, value), h) k v found = elim (Bool-cases (j == k)) [
  | inl same ↦
      let e : some u ≡ some v = sym (lookup_here k j u m same) ∙ found in
      let is_v : u ≡ v = cc in let is_k = eq_of_test j k same in (rw is_k at key, rw is_v at value)
  | inr other ↦ pairs-IsUtf8Map m h k v (sym (lookup_there k j u m other) ∙ found)
]
