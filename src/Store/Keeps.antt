-- ===== src/Store/Keeps.antt =====
-- What an applied entry keeps.
use hraftd.Common.{◌≡◌, ◌≢◌, ℕ, refl, ap, none, some, arith, Option-cases, inl, inr}
use hraftd.Common.Text.{Text, eq_iff}
use hraftd.Common.Map.{
  lookup, Distinct, lookup-insert, lookup-delete, insert-Distinct, delete-Distinct,
}
use hraftd.Model.{Command}
use hraftd.Dealers.{Reply, Log, intercept}
use hraftd.World.{WithError}
use hraftd.Env.{Env}
use hraftd.Store.State.{Store}
use hraftd.Store.Machine.{apply_set, apply_command, apply_read, apply}
use hraftd.Store.Replicas.{command_in, apply_read-panics, apply_read-passed, apply_read-taken}

module _ (env : Env) where
  apply_command-Distinct :
      (now : ℕ) (c : Command) (s : Store env)
      → Distinct s.kv
      → Distinct (apply_command env now c s).kv
  unfolding apply_command apply_set
  apply_command-Distinct now c s d =
      ground (arith, d, insert-Distinct c.key c.value s.kv d, delete-Distinct c.key s.kv d)

  apply_command-frame :
      (now : ℕ) (c : Command) (s : Store env) (k : Text)
      → k ≢ c.key
      → lookup k (apply_command env now c s).kv ≡ lookup k s.kv
  unfolding apply_command apply_set
  apply_command-frame now c s k other =
      ground (
        arith,
        other,
        eq_iff c.key k,
        lookup-insert c.key k c.value s.kv,
        lookup-delete c.key k s.kv,
      )

  -- What an entry that is applied keeps: a map holds each key once, and changes at the command's key
  -- alone.
  pub record Keeps (l : Log) (s s' : Store env) : Type 0 where
    pub distinct : Distinct s.kv → Distinct s'.kv
    pub frame : (k : Text) → k ≢ (command_in env l).key → lookup k s'.kv ≡ lookup k s.kv

  apply_read-Keeps :
      (now : ℕ) (l : Log) (c : WithError Command) (s s' : Store env) (r : Reply env.Value)
      → env.codecs.command.decode l ≡ c
      → apply_read env now l c s ≡ some (r, s')
      → Keeps l s s'
  apply_read-Keeps now l (c, some e) s s' r d h = cc (apply_read-panics env now l c s e)
  apply_read-Keeps now l (c, none) s s' r d h =
      elim (Option-cases (intercept env.interceptor env.log_dealers l c)) [
        | inl passed ↦
            let e : apply_command env now c s ≡ s' = cc (apply_read-passed env now l c s passed) in
            let same : command_in env l ≡ c = ap (λ x. x.0) d in
            rw (← e) (record {
              distinct = apply_command-Distinct now c s;
              frame = λ k other. apply_command-frame now c s k (rw same at other);
            })
        | inr (r', taken) ↦
            let e : s ≡ s' = cc (apply_read-taken env now l c s r' taken) in
            rw (← e) (record { distinct = λ x. x; frame = λ k other. refl })
      ]

  -- An entry that does not panic, whatever it holds and whoever takes it, leaves a map that holds
  -- each key once, if it did before, and that differs at the command's key alone.
  pub apply-Keeps :
      (now : ℕ) (l : Log) (s s' : Store env) (r : Reply env.Value)
      → apply env now l s ≡ some (r, s')
      → Keeps l s s'
  unfolding apply
  apply-Keeps now l s s' r h = apply_read-Keeps now l (env.codecs.command.decode l) s s' r refl h
