-- ===== src/Logger/Lines.antt =====
-- The lines that `StdLogger` prints (logger.go): `formatHeader` and `Output`. The time is given by what
-- its methods `Date`, `Clock` and `Nanosecond` return, the caller by what `runtime.Caller` does. The
-- lock is not modelled, and the buffer, which is emptied at the start of each line, is a value.
pub mod Fields
pub mod Stamp
use hraftd.Common.{ℕ, ◌/◌, Bool, true, false, Option, none, some, [], ◌∷◌, ◌++◌, eqb, if◌then◌else◌}
use hraftd.Common.Text.{Text, lit}
use hraftd.Common.Result.{◌>>=?◌}
use hraftd.Address.{cut_last}
use hraftd.Logger.Decimal.{itoa}

pub record CivilTime : Type 0 where
  pub year : ℕ
  pub month : ℕ
  pub day : ℕ
  pub hour : ℕ
  pub min : ℕ
  pub sec : ℕ
  pub nanosecond : ℕ

-- itoa and the byte that is appended behind it
unfoldable pub put : Text → ℕ → ℕ → ℕ → Option Text
put buf i wid close = itoa buf i wid >>=? λ b. some (b ++ close ∷ [])

-- the loop of formatHeader: the file behind its last slash, one at its start not counted
unfoldable pub short_file : Text → Text
short_file [] = []
short_file (c ∷ s) = elim (cut_last b'/' s) [ none ↦ c ∷ s | some (folder, short) ↦ short ]

-- the file and the line of the caller
unfoldable pub put_caller : Text → Text → ℕ → Option Text
put_caller buf file line = put (buf ++ (short_file file ++ b':' ∷ [])) line 0 b' '

-- StdLogger.formatHeader
unfoldable pub format_header :
    (print_caller_info : Bool) → Text → CivilTime → Text → ℕ → Option Text
format_header print_caller_info buf t file line = put buf t.year 4 b'-' >>=? λ b1.
    put b1 t.month 2 b'-' >>=? λ b2. put b2 t.day 2 b' ' >>=? λ b3. put b3 t.hour 2 b':' >>=? λ b4.
    put b4 t.min 2 b':' >>=? λ b5. put b5 t.sec 2 b'.' >>=? λ b6.
    put b6 (t.nanosecond / 1_000_000) 3 b' ' >>=? λ b7.
    if print_caller_info then put_caller b7 file line else some b7

abbrev pub newline : ℕ
newline = 10

-- s[len(s)-1] == '\n', where `s` is not empty
unfoldable pub ends_line : Text → Bool
ends_line [] = false
ends_line (c ∷ []) = eqb c newline
ends_line (c ∷ d ∷ s) = ends_line (d ∷ s)

-- path.Base, of package path
module _ (base : Text → Text) where
  -- the caller of Output: `none` where runtime.Caller fails
  abbrev caller_of : Option (Text × ℕ) → Text × ℕ
  caller_of none = (lit "???", 0)
  caller_of (some (file, line)) = (base file, line)

  -- StdLogger.Output: what is written; `none` is a panic
  unfoldable pub output : Bool → Option (Text × ℕ) → CivilTime → Text → Option Text
  output print_caller_info caller now s =
      let (file, line) = if print_caller_info then caller_of caller else ([], 0) in
      format_header print_caller_info [] now file line >>=? λ b.
      some (if ends_line s then b ++ s else b ++ (s ++ newline ∷ []))
