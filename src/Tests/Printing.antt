-- ===== src/Tests/Printing.antt =====
-- Numbers, lines and levels of the loggers.
use hraftd.Common.{
  ℕ, ◌≡◌, ◌↔◌, ◌+◌, refl, true, false, Option, none, some, List, [], ◌∷◌, ◌++◌, length, arith,
}
use hraftd.Common.Text.{Text, lit, ◌==◌, has_prefix}
use hraftd.Address.{cut_last, contains}
use hraftd.Logger.{LogLevel, level_warn, Logger}
use hraftd.Logger.Decimal.{itoa_loop, itoa}
use hraftd.Logger.Lines.{CivilTime, ends_line, output, format_header, put, put_caller, short_file}
use hraftd.Logger.Lines.Stamp.{IsCivil, SameMoment, line_of, output-inj}
use hraftd.Logger.Inferred.{StdlogAdapter, trim_right, pick_level, write_line, slice_from}
use hraftd.Logger.Inferred.Panics.{warn_mark, write_line-panics_iff}

padded : itoa (lit "t ") 7 2 ≡ some (lit "t 07")
unfolding itoa itoa_loop
padded = refl

-- 2021-03-04 05:06:07.089
abbrev moment : CivilTime
moment = record {
  year = 2021;
  month = 3;
  day = 4;
  hour = 5;
  min = 6;
  sec = 7;
  nanosecond = 89_012_345;
}

moment-IsCivil : IsCivil moment
moment-IsCivil = record {
  year = omega arith;
  month = omega arith;
  day = omega arith;
  hour = omega arith;
  min = omega arith;
  sec = omega arith;
  nanosecond = omega arith;
}

output-inj_example :
    (b : Text) × (output (λ s. s) false none moment (lit "started") ≡ some b)
    × (ends_line b ≡ true)
    × (length b ≡ 24 + length (line_of (lit "started")))
    × ((caller' : Option (Text × ℕ)) (now' : CivilTime) (s' : Text)
        → IsCivil now'
        → output (λ s. s) false caller' now' s' ≡ some b
        → SameMoment moment now' × (line_of (lit "started") ≡ line_of s'))
output-inj_example = output-inj (λ s. s) none moment (lit "started") moment-IsCivil

printed :
    output (λ s. s) true (some (lit "/go/store.go", 12)) moment (lit "started")
    ≡ some (lit "2021-03-04 05:06:07.089 store.go:12 started" ++ 10 ∷ [])
unfolding output format_header put itoa itoa_loop put_caller ends_line short_file cut_last contains
printed = refl

-- A logger that keeps what it is given.
abbrev keeper : Logger ℕ
keeper = record {
  State = List (LogLevel × Text);
  set_log_level = λ l s. s;
  get_log_level = λ s. 0;
  logf = λ l text fields s. (l, text) ∷ s;
}

-- The levels are not to be inferred.
abbrev plain : StdlogAdapter
plain = record { infer_levels = false }

write_line-panics_iff_example :
    ((write_line (λ s. s) keeper plain (lit "[WARN] ") [] ≡ none)
      ↔ (trim_right (lit "[WARN] ") ≡ warn_mark))
    × ((c : ℕ) (rest : Text)
        → trim_right (lit "[WARN] ") ≡ warn_mark ++ c ∷ rest
        → write_line (λ s. s) keeper plain (lit "[WARN] ") [] ≡ some ((level_warn, rest) ∷ []))
write_line-panics_iff_example = write_line-panics_iff (λ s. s) keeper plain (lit "[WARN] ") []

bare_warning : write_line (λ s. s) keeper plain (lit "[WARN] ") [] ≡ none
unfolding write_line pick_level trim_right slice_from has_prefix ◌==◌
bare_warning = refl

dropped_byte :
    write_line (λ s. s) keeper plain (lit "[WARN]no peer") []
    ≡ some ((level_warn, lit "o peer") ∷ [])
unfolding write_line pick_level trim_right slice_from has_prefix ◌==◌
dropped_byte = refl
