-- ===== src/Logger/Lines/Fields.antt =====
-- Numbers printed in fixed widths, one after the other.
use hraftd.Common.{
  ℕ, ◌+◌, ◌^◌, ◌≤◌, ◌<◌, ◌≡◌, refl, sym, ap, ◌∙◌, Option, some, List, [], ◌∷◌, ◌++◌, append_assoc,
  append-nil, length, length-append, All, arith,
}
use hraftd.Common.Text.{Text}
use hraftd.Common.Result.{◌>>=?◌}
use hraftd.Logger.Decimal.{value, pow10, itoa-IsDecimal}
use hraftd.Logger.Lines.{put}

-- A number, the width that it is printed with, and the byte behind it.
pub record Field : Type 0 where
  pub number : ℕ
  pub width : ℕ
  pub close : ℕ

-- The fields, one after the other.
unfoldable pub put_all : Text → List Field → Option Text
put_all buf [] = some buf
put_all buf (f ∷ fs) = put buf f.number f.width f.close >>=? λ b. put_all b fs

abbrev pub Fits : Field → Type 0
Fits f = (f.number < pow10 f.width) × (0 < f.width) × (f.width ≤ 20) × (f.number < 10 ^ 19)

-- The text is the fields, each in its width.
abbrev pub Shows : List Field → Text → Type 0
Shows [] h = h ≡ []
Shows (f ∷ fs) h =
    (t : Text) × (rest : Text) × (h ≡ t ++ f.close ∷ rest)
    × (value t ≡ f.number)
    × (length t ≡ f.width)
    × Shows fs rest

pub put_all-Shows :
    (buf : Text) (fs : List Field)
    → All Fits fs
    → (h : Text) × (put_all buf fs ≡ some (buf ++ h)) × Shows fs h
unfolding put_all put
put_all-Shows buf [] fits = ([], ap (λ x. some x) (sym (append-nil buf)), refl)
put_all-Shows buf (f ∷ fs) ((small, wide, low, int), fits) =
    let (t, e, d) = itoa-IsDecimal buf f.number f.width int low in
    let (h, e', shows) = put_all-Shows ((buf ++ t) ++ f.close ∷ []) fs fits in
    let joined : ((buf ++ t) ++ f.close ∷ []) ++ h ≡ buf ++ (t ++ f.close ∷ h) =
      append_assoc (buf ++ t) (f.close ∷ []) h ∙ append_assoc buf t (f.close ∷ h) in
    (
      t ++ f.close ∷ h,
      rw e (e' ∙ ap (λ x. some x) joined),
      (t, h, refl, d.same, d.exact small wide, shows),
    )

unfoldable pub total : List Field → ℕ
total [] = 0
total (f ∷ fs) = f.width + 1 + total fs

pub length-Shows : (fs : List Field) (h : Text) → Shows fs h → length h ≡ total fs
unfolding total
length-Shows [] h e = rw e
length-Shows (f ∷ fs) h (t, rest, e, _, wide, shows) =
    omega (arith, ap length e, length-append t (f.close ∷ rest), length-Shows fs rest shows)

pub append-inj : (s s' x y : Text) → length s ≡ length s' → s ++ x ≡ s' ++ y → (s ≡ s') × (x ≡ y)
append-inj [] [] x y l e = (refl, e)
append-inj [] (c ∷ s') x y l e = absurd (omega arith)
append-inj (c ∷ s) [] x y l e = absurd (omega arith)
append-inj (c ∷ s) (c' ∷ s') x y l e =
    let (same, rest) = append-inj s s' x y (omega arith) (cc) in (cc, rest)

-- The fields have the same widths, and the numbers in them are the same.
abbrev pub SameShape : List Field → List Field → Type 0
SameShape [] [] = Unit
SameShape (f ∷ fs) (g ∷ gs) = (f.width ≡ g.width) × SameShape fs gs
SameShape _ _ = ⊥

abbrev pub SameNumbers : List Field → List Field → Type 0
SameNumbers (f ∷ fs) (g ∷ gs) = (f.number ≡ g.number) × SameNumbers fs gs
SameNumbers _ _ = Unit

pub Shows-inj :
    (fs gs : List Field) (h : Text) → SameShape fs gs → Shows fs h → Shows gs h → SameNumbers fs gs
Shows-inj [] gs h same a b = tt
Shows-inj (f ∷ fs) [] h same a b = tt
Shows-inj (f ∷ fs) (g ∷ gs) h (width, same) (t, x, e, v, l, shows) (t', y, e', v', l', shows') =
    let (texts, rests) = append-inj t t' (f.close ∷ x) (g.close ∷ y) (omega arith) (sym e ∙ e') in
    let tail : y ≡ x = cc in
    (sym v ∙ ap value texts ∙ v', Shows-inj fs gs x same shows (rw (← tail) shows'))
