-- ===== src/Replication/Written.antt =====
-- Which committed entry has written a value, and that what the entries write is UTF-8.
use hraftd.Common.{
  ℕ, zero, suc, ◌≡◌, refl, sym, ◌∙◌, Bool, true, none, some, List, [], ◌∷◌, arith, take, All, Any,
  Option-cases, inl, inr, ◌⊎◌,
}
use hraftd.Common.Text.{Text, eq_iff}
use hraftd.Common.Utf8.{IsUtf8}
use hraftd.Model.{Command}
use hraftd.Dealers.{intercept}
use hraftd.Env.{Env}
use hraftd.Store.State.{op_set}
use hraftd.Store.Replicas.{command_in}
use hraftd.Replication.{Entry, HasText}
use hraftd.Replication.Replay.{View, change, effect, replay, prefix, effect-passed, effect-taken}

module _ (env : Env) where
  -- The entry's command is a Set of the key to the value, in time, and no dealer takes it.
  pub record Sets (k v : Text) (e : Entry) : Type 0 where
    pub is_set : (command_in env e.log).op ≡ op_set
    pub same_key : (command_in env e.log).key ≡ k
    pub same_value : (command_in env e.log).value ≡ v
    pub in_time : e.timely ≡ true
    pub untaken : intercept env.interceptor env.log_dealers e.log (command_in env e.log) ≡ none

  change-some :
      (c : Command) (timely : Bool) (w : View) (k v : Text)
      → change c timely w k ≡ some v
      → (w k ≡ some v) ⊎ ((c.op ≡ op_set) × (c.key ≡ k) × (c.value ≡ v) × (timely ≡ true))
  change-some c timely w k v h = ground (arith, h, eq_iff c.key k, eq_iff c.op op_set)

  effect-some :
      (e : Entry) (w : View) (k v : Text) → effect env e w k ≡ some v → (w k ≡ some v) ⊎ Sets k v e
  effect-some e w k v h =
      elim (Option-cases (intercept env.interceptor env.log_dealers e.log (command_in env e.log))) [
        | inl passed ↦
            elim (change-some (command_in env e.log) e.timely w k v
              (sym (effect-passed env e _ w k refl passed) ∙ h)) [
                | inl h' ↦ inl h'
                | inr (o, key, value, timely) ↦ inr (record {
                  is_set = o;
                  same_key = key;
                  same_value = value;
                  in_time = timely;
                  untaken = passed;
                })
              ]
        | inr (r, taken) ↦ inl (sym (effect-taken env e _ w k r refl taken) ∙ h)
      ]

  pub replay-some :
      (es : List Entry) (w : View) (k v : Text)
      → replay env es w k ≡ some v
      → (w k ≡ some v) ⊎ Any (Sets k v) es
  replay-some [] w k v h = inl h
  replay-some (e ∷ es) w k v h = elim (replay-some es (effect env e w) k v h) [
    | inr later ↦ inr (inr later)
    | inl before ↦ elim (effect-some e w k v before) [ inl h' ↦ inl h' | inr sets ↦ inr (inl sets) ]
  ]

  -- The values of a view, and the keys that have one, are UTF-8.
  abbrev IsUtf8View : View → Type 0
  IsUtf8View w = (k v : Text) → w k ≡ some v → IsUtf8 k × IsUtf8 v

  effect-IsUtf8View :
      (e : Entry) (w : View) → HasText env e → IsUtf8View w → IsUtf8View (effect env e w)
  effect-IsUtf8View e w (op, key, value, time) h k v reads = elim (effect-some e w k v reads) [
    | inl before ↦ h k v before
    | inr sets ↦ (rw sets.same_key at key, rw sets.same_value at value)
  ]

  replay-IsUtf8View :
      (es : List Entry) (w : View)
      → All (HasText env) es
      → IsUtf8View w
      → IsUtf8View (replay env es w)
  replay-IsUtf8View [] w texts h = h
  replay-IsUtf8View (e ∷ es) w (text, texts) h =
      replay-IsUtf8View es (effect env e w) texts (effect-IsUtf8View e w text h)

  All-take : (n : ℕ) (es : List Entry) → All (HasText env) es → All (HasText env) (take n es)
  All-take zero es h = tt
  All-take (suc n) [] h = tt
  All-take (suc n) (e ∷ es) (text, texts) = (text, All-take n es texts)

  -- What the first entries of a log in UTF-8 write is UTF-8.
  pub prefix-IsUtf8 :
      (es : List Entry) (n : ℕ) (k v : Text)
      → All (HasText env) es
      → prefix env es n k ≡ some v
      → IsUtf8 k × IsUtf8 v
  prefix-IsUtf8 es n k v texts =
      replay-IsUtf8View (take n es) (λ k. none) (All-take n es texts) (λ k v h. cc) k v
