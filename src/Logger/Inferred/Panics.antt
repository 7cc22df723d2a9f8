-- ===== src/Logger/Inferred/Panics.antt =====
-- When `stdlogAdapter.Write` panics, and what it drops of a warning.
use hraftd.Common.{
  ℕ, suc, ◌≤◌, ◌≡◌, ◌≢◌, ◌↔◌, refl, ap, Bool, true, false, Option, none, some, [], ◌∷◌, ◌++◌, drop,
  length, leb, if◌then◌else◌, arith, Bool-cases, inl, inr,
}
use hraftd.Common.Text.{Text, lit, has_prefix}
use hraftd.Logger.{LogLevel, level_debug, level_info, level_warn, level_error, Logger}
use hraftd.Logger.Inferred.{
  slice_from, trim_right, at_level, pick_level, log_picked, write_line, StdlogAdapter,
}

prefix-le : (s p : Text) → has_prefix s p ≡ true → length p ≤ length s
unfolding has_prefix
prefix-le s [] h = omega arith
prefix-le [] (b ∷ p) h = cc
prefix-le (a ∷ s) (b ∷ p) h = ground (arith, prefix-le s p)

prefix-eq : (s p : Text) → has_prefix s p ≡ true → length s ≤ length p → s ≡ p
unfolding has_prefix
prefix-eq [] [] h k = refl
prefix-eq (a ∷ s) [] h k = absurd (omega arith)
prefix-eq [] (b ∷ p) h k = cc
prefix-eq (a ∷ s) (b ∷ p) h k = ground (arith, prefix-eq s p)

slice_from-le : (n : ℕ) (s : Text) → n ≤ length s → slice_from n s ≡ some (drop n s)
unfolding slice_from
slice_from-le n s h = ground arith

abbrev pub warn_mark : Text
warn_mark = lit "[WARN]"

-- A case that cannot be `none` is passed by.
rung :
    {A : Type 0} (test : Bool) {x y : Option A}
    → (test ≡ true → x ≢ none)
    → (if test then x else y) ≡ none
    → y ≡ none
rung true f h = absurd (f refl h)
rung false f h = h

module _ (trim_space : Text → Text) where
  keeps :
      (level : LogLevel) (str mark : Text)
      → has_prefix str mark ≡ true
      → at_level trim_space level (slice_from (length mark) str) ≢ none
  keeps level str mark h e =
      cc (ap (at_level trim_space level) (slice_from-le (length mark) str (prefix-le str mark h)))

  short :
      (level : LogLevel) (n : ℕ) (str : Text)
      → at_level trim_space level (slice_from n str) ≡ none
      → suc (length str) ≤ n
  short level n str h = elim (Bool-cases (leb n (length str))) [
    | inl long ↦ cc (ap (at_level trim_space level) (slice_from-le n str (ground arith)))
    | inr less ↦ ground arith
  ]

  only_warn : (str : Text) → pick_level trim_space str ≡ none → str ≡ warn_mark
  unfolding pick_level
  only_warn str h =
      let h1 = rung _ (keeps level_debug str (lit "[DEBUG]")) h in
      let h2 = rung _ (keeps level_debug str (lit "[TRACE]")) h1 in
      let h3 = rung _ (keeps level_info str (lit "[INFO]")) h2 in
      elim (Bool-cases (has_prefix str warn_mark)) [
        | inl warns ↦
            prefix-eq str warn_mark warns (omega (arith, short level_warn 7 str (rw warns at h3)))
        | inr other ↦
            let h4 = rw other at h3 in
            let h5 = rung _ (keeps level_error str (lit "[ERROR]")) h4 in
            cc (rung _ (keeps level_error str (lit "[ERR]")) h5)
      ]

  pick_level-mark : pick_level trim_space warn_mark ≡ none
  unfolding pick_level has_prefix slice_from
  pick_level-mark = refl

  pick_level-warn :
      (c : ℕ) (s : Text)
      → pick_level trim_space (warn_mark ++ c ∷ s) ≡ some (level_warn, trim_space s)
  unfolding pick_level has_prefix slice_from
  pick_level-warn c s = ground arith

  module _ {Data : Type 0} (logger : Logger Data) where
    log_picked-none :
        (p : Option (LogLevel × Text)) (s : logger.State)
        → log_picked trim_space logger p s ≡ none
        → p ≡ none
    log_picked-none none s h = refl
    log_picked-none (some (level, text)) s h = cc

    -- Whether levels are to be inferred or not, a line panics exactly if it is "[WARN]" and blanks
    -- behind that. Of a warning with more in it, the byte behind the mark is dropped, whatever it is,
    -- and the rest is logged as a warning.
    pub write_line-panics_iff :
        (adapter : StdlogAdapter) (text : Text) (s : logger.State)
        → ((write_line trim_space logger adapter text s ≡ none) ↔ (trim_right text ≡ warn_mark))
          × ((c : ℕ) (rest : Text)
              → trim_right text ≡ warn_mark ++ c ∷ rest
              → write_line trim_space logger adapter text s
                ≡ some (logger.logf level_warn (trim_space rest) [] s))
    unfolding write_line
    write_line-panics_iff adapter text s = (
      (λ h. only_warn (trim_right text) (log_picked-none _ s h), λ h. rw (h, pick_level-mark) refl),
      λ c rest h. rw (h, pick_level-warn c rest) refl,
    )
