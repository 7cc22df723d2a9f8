-- ===== src/Service/Posts.antt =====
-- POST and GET of keys (service_key.go).
use hraftd.Common.{
  ℕ, ◌≡◌, ◌≢◌, ◌⊎◌, inl, inr, refl, ap, true, false, Option, none, some, [], ◌∷◌, ◌++◌,
  Option-cases,
}
use hraftd.Common.Text.{
  Text, lit, ◌==◌, eq_refl, eq_false, has_prefix, has_prefix-append, trim_prefix-append,
}
use hraftd.Common.Map.{Map, lookup}
use hraftd.Address.{key_path}
use hraftd.Http.{HttpRequest}
use hraftd.Env.{Env}
use hraftd.Store.Machine.{get, set}
use hraftd.Service.Answers.{
  no_response, answer_entry, decode_body, W, S, write_header, write, try_parse_json,
}
use hraftd.Service.Keys.{
  slash, get_key, answer_get, set_all, post_read, do_key_post, handle_key_request,
}
use hraftd.Service.Routes.{serve_http}

module _ (env : Env) (now : S env → ℕ) where
  open env use {codecs}

  -- Every pair has been set, in order, without an error; the surroundings go from `s` to `s'`.
  abbrev pub AllSet : Map Text → S env → S env → Type 0
  AllSet [] s s' = s ≡ s'
  AllSet ((k, v) ∷ m) s s' = (t : S env) × (set env k v (now s) s ≡ (none, t)) × AllSet m t s'

  -- The pairs ahead of one have been set, and that one was refused.
  pub record Stopped (m : Map Text) (s s' : S env) : Type 0 where
    pub ahead : Map Text
    pub behind : Map Text
    pub key : Text
    pub value : Text
    pub error : Text
    pub at : S env
    pub splits : m ≡ ahead ++ (key, value) ∷ behind
    pub all_set : AllSet ahead s at
    pub refused_by : set env key value (now at) at ≡ (some error, s')

  abbrev Posted : Map Text → W env → S env → W env × S env → Type 0
  Posted m w s r = ((r.0 ≡ w) × AllSet m s r.1) ⊎ ((r.0 ≡ write_header env 500 w) × Stopped m s r.1)

  set_all-accepted :
      (w : W env) (k v : Text) (m : Map Text) (s t : S env)
      → set env k v (now s) s ≡ (none, t)
      → set_all env now w ((k, v) ∷ m) s ≡ set_all env now w m t
  unfolding set_all
  set_all-accepted w k v m s t h =
      let a : (set env k v (now s) s).0 ≡ none = ap (λ x. x.0) h in
      let b : (set env k v (now s) s).1 ≡ t = ap (λ x. x.1) h in rw (set_all, a, b) refl

  set_all-refused :
      (w : W env) (k v e : Text) (m : Map Text) (s t : S env)
      → set env k v (now s) s ≡ (some e, t)
      → set_all env now w ((k, v) ∷ m) s ≡ (write_header env 500 w, t)
  unfolding set_all
  set_all-refused w k v e m s t h =
      let a : (set env k v (now s) s).0 ≡ some e = ap (λ x. x.0) h in
      let b : (set env k v (now s) s).1 ≡ t = ap (λ x. x.1) h in rw (set_all, a, b) refl

  set_all-nil : (w : W env) (s : S env) → set_all env now w [] s ≡ (w, s)
  unfolding set_all
  set_all-nil w s = refl

  Posted-later :
      (w : W env) (k v : Text) (m : Map Text) (s t : S env)
      → set env k v (now s) s ≡ (none, t)
      → (r : W env × S env) → Posted m w t r
      → Posted ((k, v) ∷ m) w s r
  Posted-later w k v m s t h r (inl (same, set_rest)) = inl (same, (t, h, set_rest))
  Posted-later w k v m s t h r (inr (bad, stop)) = inr (
    bad,
    record {
      ahead = (k, v) ∷ stop.ahead;
      behind = stop.behind;
      key = stop.key;
      value = stop.value;
      error = stop.error;
      at = stop.at;
      splits = ap (◌∷◌ (k, v)) stop.splits;
      all_set = (t, h, stop.all_set);
      refused_by = stop.refused_by;
    },
  )

  set_all-Posted : (w : W env) (m : Map Text) (s : S env) → Posted m w s (set_all env now w m s)
  set_all-Posted w [] s = rw (set_all-nil w s) (inl (refl, refl))
  set_all-Posted w ((k, v) ∷ m) s =
      let t = (set env k v (now s) s).1 in
      elim (Option-cases (set env k v (now s) s).0) [
        | inl good ↦
            let h : set env k v (now s) s ≡ (none, t) = λ i. (good i, t) in
            rw (set_all-accepted w k v m s t h)
              (Posted-later w k v m s t h _ (set_all-Posted w m t))
        | inr (e, bad) ↦
            let h : set env k v (now s) s ≡ (some e, t) = λ i. (bad i, t) in
            rw (set_all-refused w k v e m s t h) (
              inr (
                refl,
                record {
                  ahead = [];
                  behind = m;
                  key = k;
                  value = v;
                  error = e;
                  at = s;
                  splits = refl;
                  all_set = refl;
                  refused_by = h;
                },
              ))
      ]

  -- A POST of keys on the leader, with a body that can be read, either has set each pair in order and
  -- leaves the status at its default, or has set those ahead of the first one that is refused, none
  -- behind it, and answers 500.
  pub do_key_post-Posted :
      (w : W env) (r : HttpRequest) (s : S env) (m : Map Text)
      → decode_body codecs.text_map [] r.body ≡ (m, none)
      → (((do_key_post env now w r s).0 ≡ w) × AllSet m s (do_key_post env now w r s).1)
        ⊎ (((do_key_post env now w r s).0 ≡ write_header env 500 w)
            × Stopped m s (do_key_post env now w r s).1)
  do_key_post-Posted w r s m h =
      let e : do_key_post env now w r s ≡ set_all env now w m s =
        (unfold do_key_post post_read in ap (λ b. post_read env now b w s) h) in
      rw e (set_all-Posted w m s)

  -- What a GET of a key is answered with.
  abbrev pub shown : Text → Option Text → W env
  shown key (some v) = record {
    status = some 200;
    written = answer_entry key (try_parse_json env v) ∷ [];
    aborted = false;
  }
  shown key none = record { status = some 404; written = []; aborted = false }

  answer_get-shown : (key : Text) (o : Option Text) → answer_get env key o no_response ≡ shown key o
  unfolding answer_get write write_header
  answer_get-shown key none = refl
  answer_get-shown key (some v) = refl

  get_key-path :
      (key : Text) (r : HttpRequest) (w : W env)
      → key ≢ []
      → r.path ≡ key_path ++ slash ++ key
      → get_key env r w ≡ (some key, w)
  unfolding get_key
  get_key-path key r w some_key at =
      rw
        (
          at,
          trim_prefix-append key_path (slash ++ key),
          trim_prefix-append slash key,
          eq_false key [] some_key,
        )
        refl

  -- A GET of a key is answered from the node's own map, be it the leader or not: 200 and the entry if
  -- the key is there, and else 404. The surroundings stay as they are.
  pub serve_http-get :
      (kv : Map Text) (key : Text) (r : HttpRequest) (s : S env)
      → key ≢ []
      → r.method ≡ lit "GET"
      → r.path ≡ key_path ++ slash ++ key
      → serve_http env now kv no_response r s ≡ (shown key (lookup key kv), s)
  unfolding serve_http handle_key_request get
  serve_http-get kv key r s some_key by at =
      let routed : has_prefix r.path key_path ≡ true =
        rw at (has_prefix-append key_path (slash ++ key)) in
      let got : (r.method == lit "GET") ≡ true = rw by (eq_refl (lit "GET")) in
      let k = get_key-path key r no_response some_key at in
      let found : (get_key env r no_response).0 ≡ some key = ap (λ x. x.0) k in
      let left : (get_key env r no_response).1 ≡ no_response = ap (λ x. x.1) k in
      rw (routed, got, found, left) (ap (λ a. (a, s)) (answer_get-shown key _))
