-- ===== src/Args/Numbers.antt =====
-- Numbers in texts: `strconv.Atoi` for an `int` of 64 bits, without its error, and the verb %d.
use hraftd.Common.{
  ℕ, ◌+◌, ◌-◌, ◌*◌, ◌^◌, ◌≤◌, ◌<◌, ◌≡◌, refl, ap, ◌∙◌, Bool, true, false, ◌&&◌, Option, none, some,
  [], ◌∷◌, length, All, append-nil, eqb, leb, if◌then◌else◌, arith,
}
use hraftd.Common.Text.{Text}
use hraftd.Common.Int.{ℤ, pos, negsuc}
use hraftd.Address.{colon, contains}
use hraftd.Address.Split.{IsPlain}
use hraftd.Logger.Decimal.{
  itoa_loop, value, value_from, IsDigit, IsDecimal, pow10, itoa_loop-IsDecimal,
}

abbrev uint_max : ℕ
uint_max = 2 ^ 64 - 1

-- strconv.ParseUint behind the digits that have been read: the number, and at once the largest one
-- where the digits read are more than that; `none` where something else is met before.
unfoldable pub digits_from : ℕ → Text → Option ℕ
digits_from n [] = some n
digits_from n (b ∷ t) =
    let next = 10 * n + (b - b'0') in
    let rest = digits_from next t in
    if leb b'0' b && leb b b'9' then (if leb next uint_max then rest else some uint_max) else none

abbrev pub int_max : ℕ
int_max = 2 ^ 63 - 1

-- What Atoi leaves: 0 where the text is no number, and the nearest `int` where it is too large.
abbrev signed : (negative : Bool) → Option ℕ → ℤ
signed negative none = pos 0
signed false (some n) = pos (if leb n int_max then n else int_max)
signed true (some n) =
    if eqb n 0 then pos 0 else negsuc ((if leb n (int_max + 1) then n else int_max + 1) - 1)

abbrev unsigned : Text → Option ℕ
unsigned [] = none
unsigned (b ∷ t) = digits_from 0 (b ∷ t)

-- strconv.Atoi
unfoldable pub atoi : Text → ℤ
atoi [] = pos 0
atoi (c ∷ t) =
    if eqb c b'-'
    then signed true (unsigned t)
    else if eqb c b'+'
    then signed false (unsigned t)
    else signed false (unsigned (c ∷ t))

abbrev text_of : Option Text → Text
text_of none = []
text_of (some t) = t

-- A number in decimal; 20 digits are enough for an `int`.
unfoldable pub decimal : ℕ → Text
decimal n = text_of (itoa_loop 20 n 0 [])

-- the verb %d
unfoldable pub show_int : ℤ → Text
show_int (pos n) = decimal n
show_int (negsuc n) = b'-' ∷ decimal (n + 1)

-- More digits make no smaller number.
value_from-le : (n : ℕ) (t : Text) → n ≤ value_from n t
unfolding value_from
value_from-le n [] = omega arith
value_from-le n (b ∷ t) = omega (arith, value_from-le (10 * n + (b - b'0')) t)

digits_from-value :
    (n : ℕ) (t : Text)
    → All IsDigit t
    → value_from n t ≤ int_max
    → digits_from n t ≡ some (value_from n t)
unfolding digits_from value_from
digits_from-value n [] h k = refl
digits_from-value n (b ∷ t) (d, h) k =
    let next = 10 * n + (b - b'0') in
    let small : leb next uint_max ≡ true = ground (arith, k, value_from-le next t) in
    ground (arith, d, small, digits_from-value next t h k)

pub decimal-IsDecimal : (n : ℕ) → n ≤ int_max → IsDecimal n 0 20 (decimal n)
unfolding decimal
decimal-IsDecimal n h =
    let small : n < pow10 20 = unfold pow10 in omega arith in
    let (t, e, d) = itoa_loop-IsDecimal 20 n 0 [] small (omega arith) (omega arith) in
    let same : decimal n ≡ t = ap text_of e ∙ append-nil t in rw same d

atoi-digits : (t : Text) → All IsDigit t → 0 < length t → value t ≤ int_max → atoi t ≡ pos (value t)
unfolding atoi value_from
atoi-digits [] d some_digit h = absurd (omega arith)
atoi-digits (c ∷ t) (d, ds) some_digit h = ground (arith, d, digits_from-value 0 (c ∷ t) (d, ds) h)

-- A number is read back from its print.
pub atoi-decimal : (n : ℕ) → n ≤ int_max → atoi (decimal n) ≡ pos n
atoi-decimal n h =
    let d = decimal-IsDecimal n h in
    atoi-digits (decimal n) d.digits d.some_digit (omega (arith, d.same)) ∙ ap (λ x. pos x) d.same

digits-lack : (c : ℕ) (t : Text) → b'9' < c → All IsDigit t → contains c t ≡ false
unfolding contains
digits-lack c [] h d = refl
digits-lack c (b ∷ t) h (d, ds) = ground (arith, d, digits-lack c t h ds)

pub decimal-IsPlain : (n : ℕ) → n ≤ int_max → IsPlain (decimal n)
decimal-IsPlain n h =
    let d = (decimal-IsDecimal n h).digits in
    record {
      no_colon = digits-lack colon (decimal n) (omega arith) d;
      no_open = digits-lack b'[' (decimal n) (omega arith) d;
      no_close = digits-lack b']' (decimal n) (omega arith) d;
    }
