-- ===== src/Store/Snapshots.antt =====
-- A snapshot, persisted and restored, holds what the store held.
use hraftd.Common.{
  ℕ, ◌≡◌, ◌↔◌, refl, sym, ap, ◌∙◌, Option, none, some, List, [], ◌∷◌, arith, if◌then◌else◌,
}
use hraftd.Common.Text.{Text, ◌==◌, eq_iff}
use hraftd.Common.Map.{Map, lookup, insert, Distinct, lookup-insert, insert-Distinct}
use hraftd.Dealers.{Log}
use hraftd.Common.Utf8.{IsUtf8Map}
use hraftd.World.{IsJson}
use hraftd.Env.{Env}
use hraftd.Store.State.{Store}
use hraftd.Store.Machine.{
  clone_from, clone_map, snapshot, restore, get, Sink, write_and_close, persist,
}
use hraftd.Store.Fsm.{SameView}
use hraftd.Store.Replicas.{run, SameEntries, Agree, run-Agree}

-- What a clone holds: the entries not yet copied come first.
abbrev or_else : Option Text → Option Text → Option Text
or_else none b = b
or_else (some v) b = some v

lookup_cons :
    (k j : Text) (v : Text) (m : Map Text)
    → lookup k ((j, v) ∷ m) ≡ (if j == k then some v else lookup k m)
unfolding lookup
lookup_cons k j v m = refl

lookup-clone_from :
    (m o : Map Text) (k : Text)
    → Distinct m
    → lookup k (clone_from m o) ≡ or_else (lookup k m) (lookup k o)
unfolding clone_from
lookup-clone_from [] o k d = unfold lookup in refl
lookup-clone_from ((j, v) ∷ m) o k (absent, d) = ground (
  arith,
  lookup-clone_from m (insert j v o) k d,
  lookup-insert j k v o,
  lookup_cons k j v m,
  eq_iff j k,
)

clone_from-Distinct : (m o : Map Text) → Distinct o → Distinct (clone_from m o)
unfolding clone_from
clone_from-Distinct [] o d = d
clone_from-Distinct ((j, v) ∷ m) o d =
    clone_from-Distinct m (insert j v o) (insert-Distinct j v o d)

or_else-nil : (a : Option Text) (k : Text) → or_else a (lookup k []) ≡ a
unfolding lookup
or_else-nil none k = refl
or_else-nil (some v) k = refl

-- A clone holds what the map holds, each key once.
pub clone_map-SameView :
    (m : Map Text) → Distinct m → Distinct (clone_map m) × SameView (clone_map m) m
unfolding clone_map
clone_map-SameView m d =
    (clone_from-Distinct m [] tt, λ k. lookup-clone_from m [] k d ∙ or_else-nil (lookup k m) k)

module _ (env : Env) (content : Text) (t : Store env) where
  restore_returns :
      (o : Map Text)
      → env.codecs.text_map.decode_first content ≡ (o, none)
      → restore env content t ≡ (none, record t { kv = o })
  unfolding restore
  restore_returns o h =
      let value : (env.codecs.text_map.decode_first content).0 ≡ o = ap (λ x. x.0) h in
      let error : (env.codecs.text_map.decode_first content).1 ≡ none = ap (λ x. x.1) h in
      rw (error, restore) (rw value)

  -- A snapshot that cannot be decoded is refused, and the store stays as it is.
  pub restore_fails :
      (o : Map Text) (e : Text)
      → env.codecs.text_map.decode_first content ≡ (o, some e)
      → restore env content t ≡ (some e, t)
  unfolding restore
  restore_fails o e h = rw (h, restore)

module _ (env : Env) (json : IsJson env.codecs) where
  -- A map of texts in UTF-8 that was encoded is restored by any store.
  pub restore-encode :
      (m : Map Text) (t : Store env)
      → Distinct m
      → IsUtf8Map m
      → let content = env.codecs.text_map.encode m in
        ((restore env content t).0 ≡ none)
        × Distinct (restore env content t).1.kv
        × SameView (restore env content t).1.kv m
  restore-encode m t d texts =
      let (o, decoded, o_distinct, o_same) = json.of_map m d texts in
      rw (restore_returns env _ t o decoded) (refl, o_distinct, o_same)

  -- What Persist writes for a snapshot of `s`, whose keys and values are UTF-8, is restored by any store: it returns no error, and
  -- from then on each Get returns what it returned from `s`.
  pub restore-snapshot :
      (s t : Store env)
      → Distinct s.kv
      → IsUtf8Map s.kv
      → let content = env.codecs.text_map.encode (snapshot env s) in
        ((restore env content t).0 ≡ none)
        × Distinct (restore env content t).1.kv
        × ((k : Text) → get env k (restore env content t).1 ≡ get env k s)
  unfolding snapshot get
  restore-snapshot s t d texts =
      let (distinct, same) = clone_map-SameView s.kv d in
      let (returned, o_distinct, o_same) =
        restore-encode (clone_map s.kv) t distinct (λ k v h. texts k v (sym (same k) ∙ h)) in
      (returned, o_distinct, λ k. o_same k ∙ same k)

  -- A replica that starts from a snapshot of `s`, whose keys and values are UTF-8, and is given the entries that come after it ends
  -- with the same contents as the one that went on from `s`, or panics as that one does, if their
  -- clocks agree on which of these entries are too old.
  pub run-restore :
      (s t : Store env) (es es' : List (ℕ × Log))
      → Distinct s.kv
      → IsUtf8Map s.kv
      → SameEntries env es es'
      → let content = env.codecs.text_map.encode (snapshot env s) in
        Agree env (run env es (restore env content t).1) (run env es' s)
  run-restore s t es es' d texts same =
      run-Agree env es es' _ s same (unfold get in (restore-snapshot s t d texts).2)

module _ (env : Env) (sink : Sink) (store : Map Text) (s : sink.State) where
  abbrev content : Text
  content = env.codecs.text_map.encode store

  abbrev written : Option Text × sink.State
  written = sink.write content s

  -- Persist returns no error exactly if the encoded map was written and the sink then closed. If one
  -- of the two fails it returns an error, having cancelled the sink behind the call that failed.
  pub persist_outcome :
      (((persist env sink store s).0 ≡ none)
        ↔ ((written.0 ≡ none) × ((sink.close written.1).0 ≡ none)))
      × ((e : Text)
          → written.0 ≡ some e
          → persist env sink store s ≡ (some e, (sink.cancel written.1).1))
      × ((e : Text)
          → written.0 ≡ none
          → (sink.close written.1).0 ≡ some e
          → persist env sink store s ≡ (some e, (sink.cancel (sink.close written.1).1).1))
  unfolding persist write_and_close
  persist_outcome = (ground arith, λ e h. ground arith, λ e h k. ground arith)
