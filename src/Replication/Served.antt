-- ===== src/Replication/Served.antt =====
-- From a POST of keys on the leader to a GET on any node (service_key.go), over the replicated log.
use hraftd.Common.{
  ℕ, ◌≡◌, ◌≢◌, sym, ap, ◌∙◌, true, none, some, List, [], ◌∷◌, ◌++◌, arith, take, All, Bool-cases,
  inl, inr,
}
use hraftd.Common.Text.{Text, lit, ◌==◌, eq_of_test}
use hraftd.Common.Map.{Map, lookup, lookup-nil, lookup_here, lookup_there}
use hraftd.Address.{key_path}
use hraftd.Http.{HttpRequest}
use hraftd.Common.Utf8.{IsUtf8}
use hraftd.World.{IsJson, IsClock}
use hraftd.Env.{Env}
use hraftd.Store.State.{cluster_key}
use hraftd.Store.Machine.{get, set, set_command}
use hraftd.Store.Fsm.{PassesOn}
use hraftd.Service.Answers.{no_response, decode_body, write_header, S}
use hraftd.Service.Keys.{slash, do_key_post}
use hraftd.Service.Routes.{serve_http}
use hraftd.Service.Posts.{AllSet, shown, do_key_post-Posted, serve_http-get}
use hraftd.Replication.{Entry, System, Reach}
use hraftd.Replication.Reads.{Elsewhere, get-set}

module _ (env : Env) (now : S env → ℕ) where
  open env use {codecs, world}

  -- The leader, in the state `at`, has had the entry for the pair accepted by raft.
  pub record Accepted (k v : Text) (at : S env) : Type 0 where
    pub leads : world.is_leader at ≡ true
    pub accepted :
        (world.raft_apply (codecs.command.encode (set_command env k v (now at))) at).0 ≡ none

  -- What raft has accepted as an entry, where it is in the log and was in time.
  abbrev pub entry_at : Text → Text → S env → Entry
  entry_at k v at = record {
    log = codecs.command.encode (set_command env k v (now at));
    timely = true;
  }

  set-Accepted : (k v : Text) (at : S env) → (set env k v (now at) at).0 ≡ none → Accepted k v at
  unfolding set
  set-Accepted k v at h = elim (Bool-cases (world.is_leader at)) [
    | inl leads ↦ record { leads = leads; accepted = rw leads at h }
    | inr follows ↦ absurd (ground arith)
  ]

  AllSet-Accepted :
      (k v : Text) (m : Map Text) (s s' : S env)
      → AllSet env now m s s'
      → lookup k m ≡ some v
      → (at : S env) × Accepted k v at
  AllSet-Accepted k v [] s s' h found = absurd (ground (arith, lookup-nil {V = Text} k))
  AllSet-Accepted k v ((j, u) ∷ m) s s' (t, h, rest) found = elim (Bool-cases (j == k)) [
    | inl same ↦
        let is_k = eq_of_test j k same in
        let e : some u ≡ some v = sym (lookup_here k j u m same) ∙ found in
        let is_v : u ≡ v = cc in (s, set-Accepted k v s (rw (is_k, is_v) at (ap (λ x. x.0) h)))
    | inr other ↦ AllSet-Accepted k v m t s' rest (sym (lookup_there k j u m other) ∙ found)
  ]

  -- A POST of keys on the leader that is answered with the default status has had an entry accepted
  -- by raft for each pair. Take a pair in UTF-8 whose key is neither empty nor the cluster's and
  -- whose command no dealer takes, and nodes whose clocks decide alike which commands are too old.
  -- Wherever the pair's entry is committed and found in time by them, a GET of the key on any node
  -- that has applied it, and behind it only entries with other keys, is answered with 200 and the
  -- value.
  pub get-posted :
      (json : IsJson codecs) (clock : IsClock env.clock) (post : HttpRequest) (s : S env)
      (m : Map Text) (key value : Text)
      → decode_body codecs.text_map [] post.body ≡ (m, none)
      → (do_key_post env now no_response post s).0.status ≡ none
      → lookup key m ≡ some value
      → IsUtf8 key
      → IsUtf8 value
      → key ≢ []
      → key ≢ cluster_key
      → ((t : ℕ) → PassesOn env (set_command env key value t))
      → (at : S env) × Accepted key value at
        × ((init : ℕ → S env) (system : System env) (i : ℕ) (before after : List Entry)
              (r : HttpRequest) (here : S env)
            → Reach env init system
            → take (system.replicas i).applied system.committed
              ≡ before ++ entry_at key value at ∷ after
            → All (Elsewhere env key) after
            → r.method ≡ lit "GET"
            → r.path ≡ key_path ++ slash ++ key
            → serve_http env now (system.replicas i).store.kv no_response r here
              ≡ (shown env now key (some value), here))
  unfolding get write_header
  get-posted json clock post s m key value body status found key_text value_text some_key ordinary
        passes =
      elim (do_key_post-Posted env now no_response post s m body) [
        | inr (failed, _) ↦ absurd (ground (arith, ap (λ w. w.status) failed))
        | inl (_, all_set) ↦
            let (at, accepted) = AllSet-Accepted key value m s _ all_set found in
            (
              at,
              accepted,
              λ init system i before after r here reached applied others by path.
                  let shows =
                    get-set env json clock init system i key value (now at) before after reached
                      key_text value_text ordinary (passes (now at)) applied others in
                  serve_http-get env now (system.replicas i).store.kv key r here some_key by path
                  ∙ ap (λ o. (shown env now key o, here)) shows,
            )
      ]
