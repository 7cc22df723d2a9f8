-- ===== src/Logger/Lines/Stamp.antt =====
-- The stamp in front of a line: its length, and that it tells the time to the millisecond.
use hraftd.Common.{
  ℕ, ◌+◌, ◌/◌, ◌≤◌, ◌<◌, ◌≡◌, refl, sym, ap, ◌∙◌, true, false, Option, some, List, [], ◌∷◌, ◌++◌,
  length, length-append, All, Bool-cases, inl, inr, arith, if◌then◌else◌,
}
use hraftd.Common.Text.{Text}
use hraftd.Logger.Decimal.{pow10}
use hraftd.Logger.Lines.{CivilTime, format_header, ends_line, newline, output}
use hraftd.Logger.Lines.Fields.{
  Field, put_all, Fits, Shows, put_all-Shows, total, length-Shows, append-inj, SameShape,
  SameNumbers, Shows-inj,
}

abbrev field : ℕ → ℕ → ℕ → Field
field number width close = record { number = number; width = width; close = close }

-- the fields of a stamp
fields : CivilTime → List Field
fields t =
    field t.year 4 b'-'
    ∷ field t.month 2 b'-'
    ∷ field t.day 2 b' '
    ∷ field t.hour 2 b':'
    ∷ field t.min 2 b':'
    ∷ field t.sec 2 b'.'
    ∷ field (t.nanosecond / 1_000_000) 3 b' '
    ∷ []

header-fields :
    (buf : Text) (t : CivilTime) (file : Text) (line : ℕ)
    → format_header false buf t file line ≡ put_all buf (fields t)
unfolding format_header put_all fields
header-fields buf t file line = refl

-- A time as the methods of time.Time give it, in the years from 0 to 9999.
pub record IsCivil (t : CivilTime) : Type 0 where
  pub year : t.year < 10_000
  pub month : t.month ≤ 12
  pub day : t.day ≤ 31
  pub hour : t.hour < 24
  pub min : t.min < 60
  pub sec : t.sec < 60
  pub nanosecond : t.nanosecond < 1_000_000_000

fields-Fits : (t : CivilTime) → IsCivil t → All Fits (fields t)
unfolding fields pow10
fields-Fits t v = omega arith

-- Two times agree to the millisecond.
abbrev pub SameMoment : CivilTime → CivilTime → Type 0
SameMoment t t' =
    (t.year ≡ t'.year)
    × (t.month ≡ t'.month)
    × (t.day ≡ t'.day)
    × (t.hour ≡ t'.hour)
    × (t.min ≡ t'.min)
    × (t.sec ≡ t'.sec)
    × (t.nanosecond / 1_000_000 ≡ t'.nanosecond / 1_000_000)

moment : (t t' : CivilTime) → SameNumbers (fields t) (fields t') → SameMoment t t'
unfolding fields
moment t t' (a, (b, (c, (d, (e, (f, (g, _))))))) = (a, b, c, d, e, f, g)

same_shape : (t t' : CivilTime) → SameShape (fields t) (fields t')
unfolding fields
same_shape t t' = (refl, (refl, (refl, (refl, (refl, (refl, (refl, tt)))))))

length-fields : (t : CivilTime) → total (fields t) ≡ 24
unfolding fields total
length-fields t = refl

-- A text with its newline, which is not doubled.
abbrev pub line_of : Text → Text
line_of s = if ends_line s then s else s ++ newline ∷ []

ends_line-snoc : (s : Text) → ends_line (s ++ newline ∷ []) ≡ true
unfolding ends_line
ends_line-snoc [] = refl
ends_line-snoc (c ∷ []) = refl
ends_line-snoc (c ∷ d ∷ s) = ends_line-snoc (d ∷ s)

ends_line-append : (h s : Text) → ends_line s ≡ true → ends_line (h ++ s) ≡ true
unfolding ends_line
ends_line-append [] s e = e
ends_line-append (c ∷ []) [] e = absurd (cc)
ends_line-append (c ∷ []) (d ∷ s) e = e
ends_line-append (c ∷ d ∷ h) s e = ends_line-append (d ∷ h) s e

line_of-ends : (s : Text) → ends_line (line_of s) ≡ true
line_of-ends s = elim (Bool-cases (ends_line s)) [
  | inl closed ↦ rw closed closed
  | inr more ↦ rw more (ends_line-snoc s)
]

line_of-append :
    (h s : Text) → (if ends_line s then h ++ s else h ++ (s ++ newline ∷ [])) ≡ h ++ line_of s
line_of-append h s = elim (Bool-cases (ends_line s)) [
  | inl closed ↦ rw closed refl
  | inr more ↦ rw more refl
]

module _ (base : Text → Text) where
  -- What is written for a text at a time: the fields of the time, and the text with its newline.
  record Written (now : CivilTime) (s b : Text) : Type 0 where
    stamp : Text
    shows : Shows (fields now) stamp
    joins : b ≡ stamp ++ line_of s

  output-Written :
      (caller : Option (Text × ℕ)) (now : CivilTime) (s : Text)
      → IsCivil now
      → (b : Text) × (output base false caller now s ≡ some b) × Written now s b
  unfolding output
  output-Written caller now s v =
      let (h, e, shows) = put_all-Shows [] (fields now) (fields-Fits now v) in
      let stamped : format_header false [] now [] 0 ≡ some h = header-fields [] now [] 0 ∙ e in
      (
        h ++ line_of s,
        rw stamped (ap (λ x. some x) (line_of-append h s)),
        record { stamp = h; shows = shows; joins = refl },
      )

  -- A line that StdLogger prints with no caller in it, in the years from 0 to 9999, is 24 bytes of
  -- stamp and the text, with one newline at the end where the text has none. It tells the moment, to
  -- the millisecond, and the text: what prints the same line prints the same of both.
  pub output-inj :
      (caller : Option (Text × ℕ)) (now : CivilTime) (s : Text)
      → IsCivil now
      → (b : Text) × (output base false caller now s ≡ some b)
        × (ends_line b ≡ true)
        × (length b ≡ 24 + length (line_of s))
        × ((caller' : Option (Text × ℕ)) (now' : CivilTime) (s' : Text)
            → IsCivil now'
            → output base false caller' now' s' ≡ some b
            → SameMoment now now' × (line_of s ≡ line_of s'))
  output-inj caller now s v =
      let (b, e, w) = output-Written caller now s v in
      let long = length-Shows (fields now) w.stamp w.shows ∙ length-fields now in
      (
        b,
        e,
        rw w.joins (ends_line-append w.stamp (line_of s) (line_of-ends s)),
        ap length w.joins ∙ omega (arith, length-append w.stamp (line_of s), long),
        λ caller' now' s' v' same.
            let (b', e', w') = output-Written caller' now' s' v' in
            let again : b' ≡ b = cc in
            let long' = length-Shows (fields now') w'.stamp w'.shows ∙ length-fields now' in
            let (stamps, texts) =
              append-inj w.stamp w'.stamp (line_of s) (line_of s') (long ∙ sym long')
                (sym w.joins ∙ sym again ∙ w'.joins) in
            (
              moment now now' (
                  Shows-inj (fields now) (fields now') w.stamp (same_shape now now') w.shows
                    (rw stamps w'.shows)),
              texts,
            ),
      )
