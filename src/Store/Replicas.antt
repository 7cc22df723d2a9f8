-- ===== src/Store/Replicas.antt =====
-- Runs of `Apply`: when two replicas agree.
use hraftd.Common.{
  ℕ, ◌≡◌, ◌≢◌, refl, sym, ◌∙◌, true, false, Option, none, some, List, [], ◌∷◌, arith, Option-cases,
  inl, inr,
}
use hraftd.Common.Text.{Text, eq_refl}
use hraftd.Common.Map.{Map, lookup, insert, lookup-insert, lookup-delete}
use hraftd.Model.{Command}
use hraftd.Dealers.{Reply, nil, Log, intercept}
use hraftd.Common.Utf8.{IsUtf8}
use hraftd.World.{WithError, IsJson, IsClock}
use hraftd.Env.{Env}
use hraftd.Store.State.{Store, cluster_key, too_old}
use hraftd.Store.Machine.{apply_set, is_fresh, apply_command, apply_read, apply, set_command}
use hraftd.Store.Fsm.{SameView, PassesOn, read_back, apply-set_command}

module _ (env : Env) where
  -- the command that an entry holds
  abbrev pub command_in : Log → Command
  command_in l = (env.codecs.command.decode l).0

  -- The log's entries are applied in order, each at its time.
  unfoldable pub run : List (ℕ × Log) → Store env → Option (Store env)
  run [] s = some s
  run ((now, l) ∷ es) s = elim (apply env now l s) [ none ↦ none | some (r, s') ↦ run es s' ]

  -- The same entries, whose times decide alike whether a command is too old.
  abbrev pub SameEntries : List (ℕ × Log) → List (ℕ × Log) → Type 0
  SameEntries [] [] = Unit
  SameEntries ((n, l) ∷ es) ((n', l') ∷ es') =
      (l ≡ l')
      × (is_fresh env n (command_in l) ≡ is_fresh env n' (command_in l))
      × SameEntries es es'
  SameEntries _ _ = ⊥

  -- Both panic, or both return stores whose maps hold the same.
  abbrev pub Agree : Option (Store env) → Option (Store env) → Type 0
  Agree none none = Unit
  Agree (some s) (some t) = SameView s.kv t.kv
  Agree _ _ = ⊥

  -- Both panic, or both give the same reply and maps that hold the same.
  abbrev pub AgreeReply :
      Option (Reply env.Value × Store env) → Option (Reply env.Value × Store env) → Type 0
  AgreeReply none none = Unit
  AgreeReply (some (r, s)) (some (r', t)) = (r ≡ r') × SameView s.kv t.kv
  AgreeReply _ _ = ⊥

  apply_set-SameView :
      (c : Command) (s t : Store env)
      → SameView s.kv t.kv
      → SameView (apply_set env c s).kv (apply_set env c t).kv
  unfolding apply_set
  apply_set-SameView c s t h k =
      ground (arith, h k, lookup-insert c.key k c.value s.kv, lookup-insert c.key k c.value t.kv)

  apply_command-SameView :
      (now now' : ℕ) (c : Command) (s t : Store env)
      → is_fresh env now c ≡ is_fresh env now' c
      → SameView s.kv t.kv
      → SameView (apply_command env now c s).kv (apply_command env now' c t).kv
  unfolding apply_command
  apply_command-SameView now now' c s t same h k = ground (
    arith,
    same,
    h k,
    apply_set-SameView c s t h k,
    lookup-delete c.key k s.kv,
    lookup-delete c.key k t.kv,
  )

  module _ (now : ℕ) (l : Log) (c : Command) (s : Store env) where
    pub apply_read-passed :
        intercept env.interceptor env.log_dealers l c ≡ none
        → apply_read env now l (c, none) s ≡ some (nil, apply_command env now c s)
    unfolding apply_read
    apply_read-passed h = rw (h, apply_read)

    pub apply_read-taken :
        (r : Reply env.Value)
        → intercept env.interceptor env.log_dealers l c ≡ some r
        → apply_read env now l (c, none) s ≡ some (r, s)
    unfolding apply_read
    apply_read-taken r h = rw (h, apply_read)

    pub apply_read-panics : (e : Text) → apply_read env now l (c, some e) s ≡ none
    unfolding apply_read
    apply_read-panics e = refl

  module _ (now : ℕ) (l : Log) (es : List (ℕ × Log)) (s : Store env) where
    run-panics : apply env now l s ≡ none → run ((now, l) ∷ es) s ≡ none
    unfolding run
    run-panics h = rw (h, run)

    pub run-goes_on :
        (r : Reply env.Value) (s' : Store env)
        → apply env now l s ≡ some (r, s')
        → run ((now, l) ∷ es) s ≡ run es s'
    unfolding run
    run-goes_on r s' h = rw (h, run)

  apply_read-AgreeReply :
      (now now' : ℕ) (l : Log) (r : WithError Command) (s t : Store env)
      → is_fresh env now r.0 ≡ is_fresh env now' r.0
      → SameView s.kv t.kv
      → AgreeReply (apply_read env now l r s) (apply_read env now' l r t)
  apply_read-AgreeReply now now' l (c, some e) s t same h =
      rw (apply_read-panics now l c s e, apply_read-panics now' l c t e) tt
  apply_read-AgreeReply now now' l (c, none) s t same h =
      elim (Option-cases (intercept env.interceptor env.log_dealers l c)) [
        | inl passed ↦
            rw (apply_read-passed now l c s passed, apply_read-passed now' l c t passed)
              (refl, apply_command-SameView now now' c s t same h)
        | inr (r, taken) ↦
            rw (apply_read-taken now l c s r taken, apply_read-taken now' l c t r taken) (refl, h)
      ]

  -- Two replicas whose maps hold the same apply an entry with the same reply, and their maps still
  -- hold the same, if their clocks agree on whether its command is too old. Dealers included.
  pub apply-AgreeReply :
      (now now' : ℕ) (l : Log) (s t : Store env)
      → is_fresh env now (command_in l) ≡ is_fresh env now' (command_in l)
      → SameView s.kv t.kv
      → AgreeReply (apply env now l s) (apply env now' l t)
  unfolding apply
  apply-AgreeReply now now' l s t same h =
      apply_read-AgreeReply now now' l (env.codecs.command.decode l) s t same h

  run_step :
      (now now' : ℕ) (l : Log) (es es' : List (ℕ × Log)) (s t : Store env)
      (a b : Option (Reply env.Value × Store env))
      → apply env now l s ≡ a
      → apply env now' l t ≡ b
      → AgreeReply a b
      → ((s' t' : Store env) → SameView s'.kv t'.kv → Agree (run es s') (run es' t'))
      → Agree (run ((now, l) ∷ es) s) (run ((now', l) ∷ es') t)
  run_step now now' l es es' s t none none ea eb ab k =
      rw (run-panics now l es s ea, run-panics now' l es' t eb) tt
  run_step now now' l es es' s t (some (r, s')) (some (r', t')) ea eb ab k =
      rw (run-goes_on now l es s r s' ea, run-goes_on now' l es' t r' t' eb) (k s' t' ab.1)
  run_step now now' l es es' s t none (some x) ea eb ab k = elim ab [ ]
  run_step now now' l es es' s t (some x) none ea eb ab k = elim ab [ ]

  -- Two replicas whose maps hold the same, and that apply the same entries one after the other, at
  -- times that decide alike which commands are too old, end with maps that hold the same, or both
  -- panic.
  pub run-Agree :
      (es es' : List (ℕ × Log)) (s t : Store env)
      → SameEntries es es'
      → SameView s.kv t.kv
      → Agree (run es s) (run es' t)
  run-Agree [] [] s t e h = unfold run in h
  run-Agree ((n, l) ∷ es) ((n', l') ∷ es') s t (same, fresh, rest) h = rw (← same) (
      run_step n n' l es es' s t _ _ refl refl (apply-AgreeReply n n' l s t fresh h)
        (λ s' t' h'. run-Agree es es' s' t' rest h'))
  run-Agree [] (x ∷ es') s t e h = elim e [ ]
  run-Agree (x ∷ es) [] s t e h = elim e [ ]

lookup-insert_self : (k v : Text) (m : Map Text) → lookup k (insert k v m) ≡ some v
lookup-insert_self k v m = rw (lookup-insert, eq_refl) refl

-- Two replicas that apply a Set of a key and a value in UTF-8 at different times, one of them within 100 seconds of the time that
-- is read back from the command and one later than that, disagree on its key from then on, unless
-- the key had the new value before.
pub apply-set_diverges :
    (env : Env) (json : IsJson env.codecs) (clock : IsClock env.clock) (key value : Text)
    (t now now' : ℕ) (s : Store env)
    → IsUtf8 key
    → IsUtf8 value
    → key ≢ cluster_key
    → PassesOn env (set_command env key value t)
    → too_old (read_back env t) now ≡ false
    → too_old (read_back env t) now' ≡ true
    → lookup key s.kv ≢ some value
    → let l = env.codecs.command.encode (set_command env key value t) in
      ¬ (AgreeReply env (apply env now l s) (apply env now' l s))
apply-set_diverges env json clock key value t now now' s key_text value_text ordinary passes fresh
      old differs h =
    let l = env.codecs.command.encode (set_command env key value t) in
    let written : Store env = record s { kv = insert key value s.kv } in
    let taken : apply env now l s ≡ some (nil, written) =
      rw fresh at
        (apply-set_command env json clock key value t now s key_text value_text ordinary passes) in
    let ignored : apply env now' l s ≡ some (nil, s) =
      rw old at
        (apply-set_command env json clock key value t now' s key_text value_text ordinary passes) in
    let (_, same) = rw (taken, ignored) at h in
    differs (sym (same key) ∙ lookup-insert_self key value s.kv)
