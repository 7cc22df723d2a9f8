-- ===== src/Service/Shown.antt =====
-- From a POST (service_key.go) over the applied entries (store.go) to what a GET shows.
use hraftd.Common.{
  ℕ, ◌≡◌, ◌≢◌, refl, ◌∙◌, false, Option, none, some, List, [], ◌∷◌, Bool-cases, inl, inr, All,
}
use hraftd.Common.Text.{Text, ◌==◌, eq_of_test}
use hraftd.Common.Map.{Map, lookup, insert, Distinct, lookup-insert, lookup_here, lookup_there}
use hraftd.Dealers.{Log, nil}
use hraftd.Common.Utf8.{IsUtf8}
use hraftd.World.{IsJson, IsClock}
use hraftd.Env.{Env}
use hraftd.Store.State.{Store, cluster_key, too_old}
use hraftd.Store.Machine.{get, set, set_command, apply}
use hraftd.Store.Fsm.{PassesOn, read_back, apply-set_command}
use hraftd.Store.Replicas.{run, run-goes_on}
use hraftd.Service.Answers.{S}

module _ (env : Env) (now : S env → ℕ) where
  open env use {codecs, world}

  -- The entries that the loop of doKeyPost hands to the raft library for the pairs, from the
  -- surroundings `s` on, each with the time at which a node applies it, within 100 seconds of the time
  -- that is read back from it.
  abbrev pub AppliedInTime : Map Text → S env → List (ℕ × Log) → Type 0
  AppliedInTime [] s es = es ≡ []
  AppliedInTime ((k, v) ∷ m) s [] = ⊥
  AppliedInTime ((k, v) ∷ m) s ((at, l) ∷ es) =
      (l ≡ codecs.command.encode (set_command env k v (now s)))
      × (too_old (read_back env (now s)) at ≡ false)
      × AppliedInTime m (set env k v (now s) s).1 es

  -- An ordinary pair: both are UTF-8, the key is not the one of the cluster, and no dealer takes its
  -- commands.
  abbrev pub IsOrdinary : Text × Text → Type 0
  IsOrdinary (k, v) =
      IsUtf8 k × IsUtf8 v × (k ≢ cluster_key) × ((t : ℕ) → PassesOn env (set_command env k v t))

  -- the posted value of a key, or else the one that was there
  abbrev pub newest : Option Text → Option Text → Option Text
  newest (some v) old = some v
  newest none old = old

  newest-insert :
      (k v j : Text) (m : Map Text) (node : Store env)
      → lookup k m ≡ none
      → newest (lookup j m) (get env j (record node { kv = insert k v node.kv }))
        ≡ newest (lookup j ((k, v) ∷ m)) (get env j node)
  unfolding get
  newest-insert k v j m node fresh = elim (Bool-cases (k == j)) [
    | inl same ↦
        let none_there : lookup j m ≡ none = rw (eq_of_test k j same) at fresh in
        rw (none_there, lookup-insert k j v node.kv, same, lookup_here j k v m same) refl
    | inr other ↦ rw (lookup-insert k j v node.kv, other, lookup_there j k v m other) refl
  ]

  run-nil :
      (s : S env) (es : List (ℕ × Log)) (node : Store env)
      → es ≡ []
      → (node' : Store env) × (run env es node ≡ some node')
        × ((k : Text) → get env k node' ≡ newest (lookup k []) (get env k node))
  run-nil s es node h = rw h (node, unfold run in refl, λ k. unfold lookup in refl)

  -- If the entries of a POST of ordinary pairs, each key in one of them, are applied in time and in
  -- order, on whichever node, nothing panics, and afterwards each posted key reads as the posted
  -- value there, and every other key as before.
  pub run-posted :
      (json : IsJson codecs) (clock : IsClock env.clock) (m : Map Text) (s : S env)
      (es : List (ℕ × Log)) (node : Store env)
      → AppliedInTime m s es
      → Distinct m
      → All IsOrdinary m
      → (node' : Store env) × (run env es node ≡ some node')
        × ((k : Text) → get env k node' ≡ newest (lookup k m) (get env k node))
  run-posted json clock [] s es node none_left d ordinary = run-nil s es node none_left
  run-posted json clock ((k, v) ∷ m) s [] node applied d ordinary = elim applied [ ]
  run-posted json clock ((k, v) ∷ m) s ((at, l) ∷ es) node (is_l, in_time, applied) (fresh, d)
        ((key_text, value_text, not_cluster, passes), ordinary) =
      let node1 : Store env = record node { kv = insert k v node.kv } in
      let step : apply env at l node ≡ some (nil, node1) = rw (is_l) (
        rw in_time at (
          apply-set_command env json clock k v (now s) at node key_text value_text not_cluster
            (passes (now s)))) in
      let (node', runs, shows) =
        run-posted json clock m (set env k v (now s) s).1 es node1 applied d ordinary in
      (
        node',
        run-goes_on env at l es node nil node1 step ∙ runs,
        λ j. shows j ∙ newest-insert k v j m node fresh,
      )
