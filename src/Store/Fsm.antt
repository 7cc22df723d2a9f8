-- ===== src/Store/Fsm.antt =====
-- What `Apply` does to the map: one entry at a time, and in runs.
use hraftd.Common.{ℕ, ◌-◌, ◌%◌, ◌≡◌, ◌≢◌, refl, ap, ◌∙◌, not, none, some, arith, if◌then◌else◌}
use hraftd.Common.Text.{Text, eq_refl, eq_false}
use hraftd.Common.Map.{Map, lookup, insert, delete}
use hraftd.Model.{Command}
use hraftd.Dealers.{nil, Log, intercept}
use hraftd.Common.Utf8.{IsUtf8}
use hraftd.World.{IsUtf8Command, IsJson, IsClock}
use hraftd.Env.{Env}
use hraftd.Store.State.{Store, op_set, op_delete, cluster_key, too_old, format_time, parse_time}
use hraftd.Store.Machine.{
  apply_set, is_fresh, apply_command, apply_read, apply, set_command, delete_command,
}

-- Two maps hold the same.
abbrev pub SameView : Map Text → Map Text → Type 0
SameView a b = (k : Text) → lookup k a ≡ lookup k b

module _ (env : Env) where
  -- The commands that Set and Delete make are left to the store.
  abbrev pub PassesOn : Command → Type 0
  PassesOn c = (l : Log) → intercept env.interceptor env.log_dealers l c ≡ none

  -- The time that ParseTime reads where FormatTime has written `t`.
  abbrev pub read_back : ℕ → ℕ
  read_back t = env.clock.wall t - env.clock.wall t % 1_000_000

  pub set_command-IsUtf8 :
      (clock : IsClock env.clock) (key value : Text) (t : ℕ)
      → IsUtf8 key
      → IsUtf8 value
      → IsUtf8Command (set_command env key value t)
  unfolding format_time
  set_command-IsUtf8 clock key value t k v = (refl, k, v, clock.text (env.clock.wall t))

  pub delete_command-IsUtf8 :
      (clock : IsClock env.clock) (key : Text) (t : ℕ)
      → IsUtf8 key
      → IsUtf8Command (delete_command env key t)
  unfolding format_time
  delete_command-IsUtf8 clock key t k = (refl, k, refl, clock.text (env.clock.wall t))

module _ (env : Env) (json : IsJson env.codecs) where
  apply-encode :
      (now : ℕ) (c : Command) (s : Store env)
      → IsUtf8Command c
      → PassesOn env c
      → apply env now (env.codecs.command.encode c) s ≡ some (nil, apply_command env now c s)
  unfolding apply apply_read
  apply-encode now c s texts h =
      let l = env.codecs.command.encode c in
      ap (λ r. apply_read env now l r s) (json.of_command c texts) ∙ rw (h l, apply_read) refl

  is_fresh-format :
      (clock : IsClock env.clock) (t now : ℕ) (c : Command)
      → c.time ≡ format_time env.clock t
      → is_fresh env now c ≡ not (too_old (read_back env t) now)
  unfolding is_fresh parse_time format_time
  is_fresh-format clock t now c h = rw (h, clock.parse-format (env.clock.wall t), is_fresh)

  -- A Set of a key and a value in UTF-8, made at the time `t` and applied at the time `now`, writes its
  -- key, unless the time that is read back lies more than 100 seconds before `now`: then it changes
  -- nothing.
  pub apply-set_command :
      (clock : IsClock env.clock) (key value : Text) (t now : ℕ) (s : Store env)
      → IsUtf8 key
      → IsUtf8 value
      → key ≢ cluster_key
      → PassesOn env (set_command env key value t)
      → apply env now (env.codecs.command.encode (set_command env key value t)) s
        ≡ some (
          nil,
          if too_old (read_back env t) now then s else record s { kv = insert key value s.kv },
        )
  apply-set_command clock key value t now s key_text value_text ordinary passes =
      let c = set_command env key value t in
      let step : apply_command env now c s
          ≡ (if too_old (read_back env t) now then s else record s { kv = insert key value s.kv }) =
        (unfold apply_command apply_set in
          rw (eq_refl op_set, is_fresh-format clock t now c refl, eq_false key cluster_key ordinary)
            (ground arith)) in
      apply-encode now c s (set_command-IsUtf8 env clock key value t key_text value_text) passes
      ∙ ap (λ r. some (nil, r)) step

  -- A Delete of a key in UTF-8 removes it, whenever it is applied.
  pub apply-delete_command :
      (clock : IsClock env.clock) (key : Text) (t now : ℕ) (s : Store env)
      → IsUtf8 key
      → PassesOn env (delete_command env key t)
      → apply env now (env.codecs.command.encode (delete_command env key t)) s
        ≡ some (nil, record s { kv = delete key s.kv })
  apply-delete_command clock key t now s key_text passes =
      let c = delete_command env key t in
      let step : apply_command env now c s ≡ record s { kv = delete key s.kv } =
        (unfold apply_command in rw (eq_false op_delete op_set (cc), eq_refl op_delete)) in
      apply-encode now c s (delete_command-IsUtf8 env clock key t key_text) passes
      ∙ ap (λ r. some (nil, r)) step
