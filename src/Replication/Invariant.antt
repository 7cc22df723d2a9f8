-- ===== src/Replication/Invariant.antt =====
-- What every replica keeps true, whatever the order in which entries are committed and applied,
-- snapshots taken, persisted and installed, and nodes started again.
use hraftd.Common.{
  ℕ, ◌≤◌, ◌≡◌, refl, sym, ap, ◌∙◌, Option, some, List, [], ◌∷◌, ◌++◌, arith, eqb, length,
  length-append, take-append, get_elem?-lt, Bool-cases, Option-cases, inl, inr, All, All-append,
}
use hraftd.Common.Text.{Text}
use hraftd.Common.Map.{Map, lookup, lookup-nil, Distinct}
use hraftd.World.{IsJson}
use hraftd.Env.{Env}
use hraftd.Store.State.{Store}
use hraftd.Store.Machine.{snapshot, restore}
use hraftd.Store.Interface.{new_store}
use hraftd.Store.Keeps.{apply-Keeps}
use hraftd.Store.Snapshots.{clone_map-SameView, restore-encode}
use hraftd.Replication.Written.{prefix-IsUtf8}
use hraftd.Replication.{
  ticks, HasText, Entry, Replica, System, Move, Reach, new_replica, restarted, put, applies,
  snapshots, persists, restarts, installs, elsewhere, begun, commits, moves,
}
use hraftd.Replication.Replay.{prefix, prefix-suc, apply-effect}

module _ (env : Env) (es : List Entry) where
  -- A map holds what the first `n` entries mean.
  abbrev pub IsPrefix : ℕ → Map Text → Type 0
  IsPrefix n m = (n ≤ length es) × Distinct m × ((k : Text) → lookup k m ≡ prefix env es n k)

  -- A written snapshot is the encoding of such a map.
  abbrev pub IsSaved : ℕ → Text → Type 0
  IsSaved n content = (m : Map Text) × IsPrefix n m × (content ≡ env.codecs.text_map.encode m)

  pub record IsReplica (r : Replica env) : Type 0 where
    pub current : IsPrefix r.applied r.store.kv
    pub pending : (n : ℕ) (m : Map Text) → r.pending ≡ some (n, m) → IsPrefix n m
    pub saved : (n : ℕ) (content : Text) → r.saved ≡ some (n, content) → IsSaved n content

module _ (env : Env) where
  abbrev pub IsSystem : System env → Type 0
  IsSystem s = (i : ℕ) → IsReplica env s.committed (s.replicas i)

  IsPrefix-nil : (es : List Entry) → IsPrefix env es 0 []
  IsPrefix-nil es = (omega arith, tt, λ k. lookup-nil k)

  new_replica-IsReplica :
      (es : List Entry) (clock : ℕ) (state : env.world.State)
      → IsReplica env es (new_replica env clock state)
  new_replica-IsReplica es clock state = record {
    current = IsPrefix-nil es;
    pending = λ n m e. cc;
    saved = λ n m e. cc;
  }

  -- More entries do not change what the first ones mean.
  IsPrefix-append :
      (es es' : List Entry) (n : ℕ) (m : Map Text)
      → IsPrefix env es n m
      → IsPrefix env (es ++ es') n m
  IsPrefix-append es es' n m (le, d, h) =
      (omega (arith, le, length-append es es'), d, λ k. rw (take-append n es es' le) (h k))

  IsReplica-append :
      (es es' : List Entry) (r : Replica env) → IsReplica env es r → IsReplica env (es ++ es') r
  IsReplica-append es es' r h = record {
    current = IsPrefix-append es es' r.applied r.store.kv h.current;
    pending = λ n m e. IsPrefix-append es es' n m (h.pending n m e);
    saved = λ n content e.
        let (m, p, same) = h.saved n content e in (m, IsPrefix-append es es' n m p, same);
  }

  module _ (es : List Entry) (n n' : ℕ) where
    IsPrefix-same :
        (m m' : Map Text)
        → ◌≡◌ {A = Option (ℕ × Map Text)} (some (n, m)) (some (n', m'))
        → IsPrefix env es n m
        → IsPrefix env es n' m'
    IsPrefix-same m m' e h = let (e₁, e₂) : (n ≡ n') × (m ≡ m') = (cc, cc) in rw (← e₁, ← e₂) h

    IsSaved-same :
        (c c' : Text)
        → ◌≡◌ {A = Option (ℕ × Text)} (some (n, c)) (some (n', c'))
        → IsSaved env es n c
        → IsSaved env es n' c'
    IsSaved-same c c' e h = let (e₁, e₂) : (n ≡ n') × (c ≡ c') = (cc, cc) in rw (← e₁, ← e₂) h

  snapshot-IsPrefix :
      (es : List Entry) (n : ℕ) (s : Store env)
      → IsPrefix env es n s.kv
      → IsPrefix env es n (snapshot env s)
  unfolding snapshot
  snapshot-IsPrefix es n s (le, d, view) =
      let (distinct, same) = clone_map-SameView s.kv d in (le, distinct, λ k. same k ∙ view k)

  module _ (json : IsJson env.codecs) where
    -- Restoring a written snapshot gives the contents that it was taken from.
    restore-IsPrefix :
        (es : List Entry) (n : ℕ) (content : Text) (t : Store env)
        → All (HasText env) es
        → IsSaved env es n content
        → IsPrefix env es n (restore env content t).1.kv
    restore-IsPrefix es n content t texts (m, (le, d, view), same) =
        let (_, distinct, reads) =
          restore-encode env json m t d
            (λ k v h. prefix-IsUtf8 env es n k v texts (sym (view k) ∙ h)) in
        rw same (le, distinct, λ k. reads k ∙ view k)

    restarted-IsReplica :
        (es : List Entry) (state : env.world.State) (r : Replica env)
        → All (HasText env) es
        → IsReplica env es r
        → IsReplica env es (restarted env state r)
    restarted-IsReplica es state r texts h = elim (Option-cases r.saved) [
      | inl nothing ↦ rw (nothing, restarted) (new_replica-IsReplica es r.clock state)
      | inr ((n, content), found) ↦
          let kept = h.saved n content found in
          rw (found, restarted)
            (record {
              current = restore-IsPrefix es n content (new_store env state) texts kept;
              pending = λ n m e. cc;
              saved = λ n' content' e. IsSaved-same es n n' content content' (sym found ∙ e) kept;
            })
    ]

    -- Each move of a replica keeps what it has to keep.
    Move-IsReplica :
        (s : System env) (r r' : Replica env)
        → All (HasText env) s.committed
        → IsSystem s
        → IsReplica env s.committed r
        → Move env s r r'
        → IsReplica env s.committed r'
    Move-IsReplica s r r' texts all h (applies e reply store at fresh done) = record {
      current =
          let (le, d, view) = h.current in
          let kept = apply-Keeps env r.clock e.log r.store store reply done in
          (
            get_elem?-lt r.applied s.committed e at,
            kept.distinct d,
            λ k.
                apply-effect env r.clock e r.store store reply (prefix env s.committed r.applied)
                  fresh done view k
                ∙ ap (λ v. v k) (sym (prefix-suc env s.committed r.applied e at)),
          );
      pending = h.pending;
      saved = h.saved;
    }
    Move-IsReplica s r r' texts all h (ticks later le) = record {
      current = h.current;
      pending = h.pending;
      saved = h.saved;
    }
    Move-IsReplica s r r' texts all h snapshots = record {
      current = h.current;
      pending = λ n m e.
          IsPrefix-same s.committed r.applied n (snapshot env r.store) m e
            (snapshot-IsPrefix s.committed r.applied r.store h.current);
      saved = h.saved;
    }
    Move-IsReplica s r r' texts all h (persists n m e) = record {
      current = h.current;
      pending = λ n m e. cc;
      saved =
          λ n' content' e'. IsSaved-same s.committed n n' _ content' e' (m, h.pending n m e, refl);
    }
    Move-IsReplica s r r' texts all h (restarts state) =
        restarted-IsReplica s.committed state r texts h
    Move-IsReplica s r r' texts all h (installs j n content e) =
        let kept = (all j).saved n content e in
        record {
          current = restore-IsPrefix s.committed n content r.store texts kept;
          pending = h.pending;
          saved = λ n' content' e'. IsSaved-same s.committed n n' content content' e' kept;
        }
    Move-IsReplica s r r' texts all h (elsewhere state) = record {
      current = h.current;
      pending = h.pending;
      saved = h.saved;
    }

    put-IsSystem :
        (s : System env) (i : ℕ) (r : Replica env)
        → IsSystem s
        → IsReplica env s.committed r
        → IsSystem (put env s i r)
    put-IsSystem s i r all h j = elim (Bool-cases (eqb i j)) [
      | inl here ↦ rw here h
      | inr other ↦ rw other (all j)
    ]

    -- In a state that can be reached the committed commands are UTF-8, and each replica is what they
    -- make of it.
    pub Reach-IsSystem :
        (init : ℕ → env.world.State) (s : System env)
        → Reach env init s
        → All (HasText env) s.committed × IsSystem s
    Reach-IsSystem init s begun = (tt, λ i. new_replica-IsReplica [] 0 (init i))
    Reach-IsSystem init s (commits {s = s₀} e text before) =
        let (texts, all) = Reach-IsSystem init s₀ before in
        (
          All-append (HasText env) s₀.committed (e ∷ []) texts (text, tt),
          λ i. IsReplica-append s₀.committed (e ∷ []) (s₀.replicas i) (all i),
        )
    Reach-IsSystem init s (moves {s = s₀} {r = r} i before step) =
        let (texts, all) = Reach-IsSystem init s₀ before in
        (
          texts,
          put-IsSystem s₀ i r all (Move-IsReplica s₀ (s₀.replicas i) r texts all (all i) step),
        )
