-- ===== src/Logger/Inferred.antt =====
-- `stdlogAdapter` (stdlog.go): a line of *log.Logger is logged at the level that it begins with.
pub mod Panics
use hraftd.Common.{
  ℕ, ◌≡◌, ◌↔◌, refl, ap, sym, ◌∙◌, Bool, true, false, ◌&&◌, ◌||◌, Option, none, some, List, [], ◌∷◌,
  ◌++◌, drop, length, eqb, leb, if◌then◌else◌, arith, Bool-cases, inl, inr,
}
use hraftd.Common.Text.{Text, lit, ◌==◌, has_prefix, eq_iff}
use hraftd.Logger.{LogLevel, level_debug, level_info, level_warn, level_error, Logger}

-- a byte of the cutset " \t\n"
abbrev is_blank : ℕ → Bool
is_blank b = eqb b b' ' || eqb b 9 || eqb b 10

-- bytes.TrimRight(data, " \t\n")
unfoldable pub trim_right : Text → Text
trim_right [] = []
trim_right (b ∷ s) = let rest = trim_right s in if rest == [] && is_blank b then [] else b ∷ rest

-- str[n:], which panics where the text is shorter
unfoldable pub slice_from : ℕ → Text → Option Text
slice_from n s = if leb n (length s) then some (drop n s) else none

-- stdlogAdapter, without its logger
pub record StdlogAdapter : Type 0 where
  pub infer_levels : Bool

-- strings.TrimSpace
module _ (trim_space : Text → Text) where
  abbrev at_level : LogLevel → Option Text → Option (LogLevel × Text)
  at_level level none = none
  at_level level (some s) = some (level, trim_space s)

  -- stdlogAdapter.pickLevel
  unfoldable pub pick_level : Text → Option (LogLevel × Text)
  unfolding slice_from
  pick_level str =
      if has_prefix str (lit "[DEBUG]")
      then at_level level_debug (slice_from 7 str)
      else if has_prefix str (lit "[TRACE]")
      then at_level level_debug (slice_from 7 str)
      else if has_prefix str (lit "[INFO]")
      then at_level level_info (slice_from 6 str)
      else if has_prefix str (lit "[WARN]")
      then at_level level_warn (slice_from 7 str)
      else if has_prefix str (lit "[ERROR]")
      then at_level level_error (slice_from 7 str)
      else if has_prefix str (lit "[ERR]")
      then at_level level_error (slice_from 5 str)
      else some (level_info, str)

  module _ {Data : Type 0} (logger : Logger Data) where
    -- what Write does with the level and the text: the text is the format
    abbrev log_picked : Option (LogLevel × Text) → logger.State → Option logger.State
    log_picked none s = none
    log_picked (some (level, str)) s = some (logger.logf level str [] s)

    -- stdlogAdapter.Write, which does not read `infer_levels`; `none` is a panic
    unfoldable pub write_line : StdlogAdapter → Text → logger.State → Option logger.State
    write_line adapter text s = log_picked (pick_level (trim_right text)) s
