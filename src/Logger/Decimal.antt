-- ===== src/Logger/Decimal.antt =====
-- `itoa` of logger.go: a number in decimal, with zeros in front up to a width.
use hraftd.Common.{
  ℕ, zero, suc, ◌+◌, ◌-◌, ◌*◌, ◌/◌, ◌^◌, ◌≤◌, ◌<◌, ◌≡◌, refl, sym, ap, ◌∙◌, true, ◌||◌, Option,
  none, some, [], ◌∷◌, ◌++◌, append_assoc, append-nil, length, length-append, All, All-append, leb,
  ltb, Bool-cases, inl, inr, arith, if◌then◌else◌,
}
use hraftd.Common.Text.{Text}

-- The loop of itoa and the write behind it, with `room` bytes of the buffer left in front of those
-- that are written; `none` is the panic on an index below it. A width of 0 stands for a negative one.
unfoldable pub itoa_loop : (room : ℕ) → ℕ → ℕ → Text → Option Text
itoa_loop zero i wid b = none
itoa_loop (suc room) i wid b =
    let q = i / 10 in
    let more = itoa_loop room q (wid - 1) ((b'0' + i - q * 10) ∷ b) in
    if leb 10 i || ltb 1 wid then more else some ((b'0' + i) ∷ b)

abbrev appended : Text → Option Text → Option Text
appended buf none = none
appended buf (some b) = some (buf ++ b)

-- itoa: the bytes are appended to the buffer
unfoldable pub itoa : Text → ℕ → ℕ → Option Text
itoa buf i wid = appended buf (itoa_loop 20 i wid [])

-- The number that digits stand for, behind those that have been read.
unfoldable pub value_from : ℕ → Text → ℕ
value_from n [] = n
value_from n (b ∷ t) = value_from (10 * n + (b - b'0')) t

abbrev pub value : Text → ℕ
value = value_from 0

abbrev pub IsDigit : ℕ → Type 0
IsDigit b = (b'0' ≤ b) × (b ≤ b'9')

unfoldable pub pow10 : ℕ → ℕ
pow10 zero = 1
pow10 (suc n) = 10 * pow10 n

value_from-snoc :
    (n b : ℕ) (t : Text) → value_from n (t ++ b ∷ []) ≡ 10 * value_from n t + (b - b'0')
unfolding value_from
value_from-snoc n b [] = refl
value_from-snoc n b (c ∷ t) = value_from-snoc (10 * n + (c - b'0')) b t

-- What `itoa` appends: digits of the number, no fewer than the width and no more than there is room.
pub record IsDecimal (i wid room : ℕ) (t : Text) : Type 0 where
  pub digits : All IsDigit t
  pub same : value t ≡ i
  pub wide : wid ≤ length t
  pub fits : length t ≤ room
  pub some_digit : 0 < length t
  pub exact : i < pow10 wid → 0 < wid → length t ≡ wid

last-IsDecimal : (i wid room : ℕ) → i < 10 → wid ≤ 1 → IsDecimal i wid (suc room) ((b'0' + i) ∷ [])
unfolding value_from
last-IsDecimal i wid room h k = record {
  digits = ((omega arith, omega arith), tt);
  same = omega arith;
  wide = omega arith;
  fits = omega arith;
  some_digit = omega arith;
  exact = λ _ p. omega arith;
}

pow10-pred : (n : ℕ) → 0 < n → pow10 n ≡ 10 * pow10 (n - 1)
unfolding pow10
pow10-pred zero h = absurd (omega arith)
pow10-pred (suc n) h = ground arith

snoc_exact :
    (i wid : ℕ) (t : Text)
    → (i / 10 < pow10 (wid - 1) → 0 < wid - 1 → length t ≡ wid - 1)
    → (leb 10 i || ltb 1 wid) ≡ true
    → i < pow10 wid
    → 0 < wid
    → length t + 1 ≡ wid
snoc_exact i wid t exact more h p = elim (Bool-cases (ltb 1 wid)) [
  | inl two ↦
      let q : i / 10 < pow10 (wid - 1) = omega (arith, pow10-pred wid p) in ground (arith, exact q)
  | inr one ↦
      let nothing : wid - 1 ≡ 0 = ground arith in
      let unit : pow10 (wid - 1) ≡ 1 = rw nothing (unfold pow10 in refl) in
      let few : i < 10 = omega (arith, pow10-pred wid p) in absurd (ground arith)
]

snoc-IsDecimal :
    (i wid room : ℕ) (t : Text)
    → IsDecimal (i / 10) (wid - 1) room t
    → (leb 10 i || ltb 1 wid) ≡ true
    → IsDecimal i wid (suc room) (t ++ (b'0' + i - i / 10 * 10) ∷ [])
snoc-IsDecimal i wid room t d more =
    let digit : IsDigit (b'0' + i - i / 10 * 10) = (omega arith, omega arith) in
    let long = length-append t ((b'0' + i - i / 10 * 10) ∷ []) in
    record {
      digits = All-append IsDigit t _ d.digits (digit, tt);
      same = omega (arith, value_from-snoc 0 (b'0' + i - i / 10 * 10) t, d.same);
      wide = omega (arith, long, d.wide);
      fits = omega (arith, long, d.fits);
      some_digit = omega (arith, long);
      exact = λ h p. omega (arith, long, snoc_exact i wid t d.exact more h p);
    }

-- In a buffer with room for the number and for the width, the loop does not run out of it.
pub itoa_loop-IsDecimal :
    (room i wid : ℕ) (b : Text)
    → i < pow10 room
    → wid ≤ room
    → 0 < room
    → (t : Text) × (itoa_loop room i wid b ≡ some (t ++ b)) × IsDecimal i wid room t
unfolding itoa_loop pow10
itoa_loop-IsDecimal zero i wid b h k p = absurd (omega arith)
itoa_loop-IsDecimal (suc zero) i wid b h k p =
    ((b'0' + i) ∷ [], ground arith, last-IsDecimal i wid 0 (omega arith) k)
itoa_loop-IsDecimal (suc (suc room)) i wid b h k p = elim (Bool-cases (leb 10 i || ltb 1 wid)) [
  | inl more ↦
      let c = b'0' + i - i / 10 * 10 in
      let (t, e, d) =
        itoa_loop-IsDecimal (suc room) (i / 10) (wid - 1) (c ∷ b) (omega arith) (omega arith)
          (omega arith) in
      (
        t ++ c ∷ [],
        rw more (e ∙ ap (λ x. some x) (sym (append_assoc t (c ∷ []) b))),
        snoc-IsDecimal i wid (suc room) t d more,
      )
  | inr last ↦
      ((b'0' + i) ∷ [], rw last refl, last-IsDecimal i wid (suc room) (ground arith) (ground arith))
]

-- A number of at most 19 digits (an `int` has no more), with a width of at most 20, is appended in
-- decimal, and the buffer of 20 bytes is never left: the digits read back as the number, are no fewer
-- than the width and no more than 20, and exactly as many as the width where that holds the number.
pub itoa-IsDecimal :
    (buf : Text) (i wid : ℕ)
    → i < 10 ^ 19
    → wid ≤ 20
    → (t : Text) × (itoa buf i wid ≡ some (buf ++ t)) × IsDecimal i wid 20 t
unfolding itoa
itoa-IsDecimal buf i wid h k =
    let large : i < pow10 20 = unfold pow10 in omega arith in
    let (t, e, d) = itoa_loop-IsDecimal 20 i wid [] large k (omega arith) in
    (t, rw e (ap (λ x. some (buf ++ x)) (append-nil t)), d)
