-- ===== src/Replication/Replay.antt =====
-- What the committed entries mean, whoever applies them: a value or nothing for each key.
use hraftd.Common.{
  ℕ, suc, ◌≡◌, refl, ap, ◌∙◌, Bool, Option, none, some, List, [], ◌∷◌, ◌++◌, arith, take, take-suc,
  get_elem?, if◌then◌else◌, Option-cases, inl, inr,
}
use hraftd.Common.Text.{Text, ◌==◌}
use hraftd.Common.Map.{lookup, lookup-insert, lookup-delete}
use hraftd.Model.{Command}
use hraftd.Dealers.{Reply, intercept}
use hraftd.World.{WithError}
use hraftd.Env.{Env}
use hraftd.Store.State.{Store, op_set, op_delete, cluster_key}
use hraftd.Store.Machine.{apply_set, is_fresh, apply_command, apply_read, apply}
use hraftd.Store.Replicas.{command_in, apply_read-panics, apply_read-passed, apply_read-taken}
use hraftd.Replication.{Entry}

abbrev pub View : Type 0
View = Text → Option Text

-- A Set that is in time gives its key the value, a Delete takes it away. The key of the cluster
-- configuration is never written.
abbrev pub change : Command → Bool → View → View
change c timely v k =
    if c.key == k
    then (if c.op == op_set
        then (if timely then (if c.key == cluster_key then v k else some c.value) else v k)
        else if c.op == op_delete
        then none
        else v k)
    else v k

module _ (env : Env) where
  -- An entry that a dealer takes changes nothing.
  abbrev pub effect : Entry → View → View
  effect e v k = elim (intercept env.interceptor env.log_dealers e.log (command_in env e.log)) [
    | some _ ↦ v k
    | none ↦ change (command_in env e.log) e.timely v k
  ]

  abbrev pub replay : List Entry → View → View
  replay [] v = v
  replay (e ∷ es) v = replay es (effect e v)

  pub replay-append :
      (es es' : List Entry) (v : View) → replay (es ++ es') v ≡ replay es' (replay es v)
  replay-append [] es' v = refl
  replay-append (e ∷ es) es' v = replay-append es es' (effect e v)

  -- what a replica holds that has applied so many entries
  abbrev pub prefix : List Entry → ℕ → View
  prefix es n = replay (take n es) (λ k. none)

  pub prefix-suc :
      (es : List Entry) (n : ℕ) (e : Entry)
      → get_elem? es n ≡ some e
      → prefix es (suc n) ≡ effect e (prefix es n)
  prefix-suc es n e h =
      ap (λ l. replay l (λ k. none)) (take-suc n es e h)
      ∙ replay-append (take n es) (e ∷ []) (λ k. none)

  apply_command-change :
      (now : ℕ) (c : Command) (s : Store env) (v : View) (k : Text)
      → lookup k s.kv ≡ v k
      → lookup k (apply_command env now c s).kv ≡ change c (is_fresh env now c) v k
  unfolding apply_command apply_set
  apply_command-change now c s v k h =
      ground (arith, h, lookup-insert c.key k c.value s.kv, lookup-delete c.key k s.kv)

  module _ (e : Entry) (c : Command) (v : View) (k : Text) where
    pub effect-passed :
        command_in env e.log ≡ c
        → intercept env.interceptor env.log_dealers e.log c ≡ none
        → effect e v k ≡ change c e.timely v k
    effect-passed is_c passed =
        let left : intercept env.interceptor env.log_dealers e.log (command_in env e.log) ≡ none =
          rw is_c passed in
        rw (left, effect) (ap (λ d. change d e.timely v k) is_c)

    pub effect-taken :
        (r : Reply env.Value)
        → command_in env e.log ≡ c
        → intercept env.interceptor env.log_dealers e.log c ≡ some r
        → effect e v k ≡ v k
    effect-taken r is_c taken =
        let left : intercept env.interceptor env.log_dealers e.log (command_in env e.log) ≡ some r =
          rw is_c taken in
        rw (left, effect)

  apply_read-effect :
      (now : ℕ) (e : Entry) (c : WithError Command) (s s' : Store env) (r : Reply env.Value)
      (v : View)
      → env.codecs.command.decode e.log ≡ c
      → is_fresh env now (command_in env e.log) ≡ e.timely
      → apply_read env now e.log c s ≡ some (r, s')
      → ((k : Text) → lookup k s.kv ≡ v k)
      → (k : Text) → lookup k s'.kv ≡ effect e v k
  apply_read-effect now e (c, some x) s s' r v d same h view k =
      cc (apply_read-panics env now e.log c s x)
  apply_read-effect now e (c, none) s s' r v d same h view k =
      let is_c : command_in env e.log ≡ c = ap (λ x. x.0) d in
      elim (Option-cases (intercept env.interceptor env.log_dealers e.log c)) [
        | inl passed ↦
            let done : apply_command env now c s ≡ s' =
              cc (apply_read-passed env now e.log c s passed) in
            rw (effect-passed e c v k is_c passed, ← done, ← (rw is_c at same))
              (apply_command-change now c s v k (view k))
        | inr (r', taken) ↦
            let done : s ≡ s' = cc (apply_read-taken env now e.log c s r' taken) in
            rw (effect-taken e c v k r' is_c taken, ← done) (view k)
      ]

  -- A store that applies an entry without a panic, at a time that decides as the entry has it, holds
  -- what the entry makes of what it held.
  pub apply-effect :
      (now : ℕ) (e : Entry) (s s' : Store env) (r : Reply env.Value) (v : View)
      → is_fresh env now (command_in env e.log) ≡ e.timely
      → apply env now e.log s ≡ some (r, s')
      → ((k : Text) → lookup k s.kv ≡ v k)
      → (k : Text) → lookup k s'.kv ≡ effect e v k
  unfolding apply
  apply-effect now e s s' r v same h =
      apply_read-effect now e (env.codecs.command.decode e.log) s s' r v refl same h
