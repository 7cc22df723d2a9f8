-- ===== src/Demo/Answering.antt =====
-- What the dealers of `main` (cmd/hraftd/main.go) answer, and which entries they keep from the store.
use hraftd.Common.{
  ◌≡◌, ◌≢◌, ◌⊎◌, ◌↔◌, refl, sym, ap, ◌∙◌, true, Option, none, some, List, [], ◌∷◌, if◌then◌else◌,
  Bool-cases, inl, inr,
}
use hraftd.Common.Text.{Text, lit, ◌==◌, eq_of_test, ne_of_test}
use hraftd.Common.Result.{Result, ok, err}
use hraftd.Common.Map.{lookup, lookup-nil}
use hraftd.Model.{Command}
use hraftd.Dealers.{
  Dealer, dealer_no_exists, dealer_continue, DealerError, DealerMap, Log, answer, invoke,
  register_job_dealer, intercept, function,
}
use hraftd.Dealers.Laws.{register-invoke, intercept-none_iff}
use hraftd.Demo.{DemoRsp, RigConfItem, rig_conf, me_items}
use hraftd.Demo.Main.{
  DemoRequest, items, read_as, Reading, deal_items, items_dealer, job_dealer, demo_log_dealers,
  demo_interceptor, registered, demo_job_dealers, job,
}

invoke-nil :
    (Request Value : Type 0) (name body : Text)
    → invoke {Request = Request} {Value = Value} name body [] ≡ (none, some dealer_no_exists)
unfolding invoke lookup
invoke-nil Request Value name body = refl

-- Requests where one dealer is registered.
register-first :
    {Request Value : Type 0} (name : Text) (d : Dealer Request Value)
    → (after : DealerMap Request Value) × (register_job_dealer name (function 1 2 true d) []
        ≡ (none, after))
      × ((other body : Text)
          → invoke other body after
            ≡ (if name == other then answer d (d.decode body) else (none, some dealer_no_exists)))
register-first name d =
    let (after, registered, h) = register-invoke name d [] (lookup-nil name) in
    (
      after,
      registered,
      λ other body.
          h other body
          ∙ ap (λ r. if name == other then answer d (d.decode body) else r)
              (invoke-nil _ _ other body),
    )

deal_items-none : (node : Text) (is : List RigConfItem) → deal_items node is ≡ (none, none)
unfolding deal_items
deal_items-none node is = go (me_items node is)
  where
    go :
        (mine : List RigConfItem)
        → ◌≡◌ {A = Option DemoRsp × Option DealerError}
            (elim mine [ [] ↦ (none, none) | _ ∷ _ ↦ (none, none) ])
            (none, none)
    go [] = refl
    go (x ∷ xs) = refl

module _ (read : Reading) where
  -- The dealer of the items takes what it is asked: it answers nothing, or cannot read it.
  items_taken :
      (node : Text) (r : Result (List RigConfItem))
      → ¬ (
          ((answer (items_dealer read node) (read_as items r)).1 ≡ some dealer_no_exists)
          ⊎ ((answer (items_dealer read node) (read_as items r)).1 ≡ some dealer_continue))
  items_taken node (err e) h = elim h [ inl k ↦ cc | inr k ↦ cc ]
  items_taken node (ok is) h =
      let e : (deal_items node is).1 ≡ none = ap (λ r. r.1) (deal_items-none node is) in
      elim h [ inl k ↦ cc | inr k ↦ cc ]

  -- A node that runs the demo leaves to the store exactly the entries whose key is not "rigconf".
  pub intercept-demo :
      (node : Text) (l : Log) (c : Command)
      → (intercept (some demo_interceptor) (demo_log_dealers read node) l c ≡ none)
        ↔ (c.key ≢ rig_conf)
  intercept-demo node l c =
      let d = items_dealer read node in
      let (after, registered, answers) = register-first rig_conf d in
      let is_after : demo_log_dealers read node ≡ after = ap (λ r. r.1) registered in
      let h = intercept-none_iff demo_interceptor after l c in
      rw is_after (elim (Bool-cases (rig_conf == c.key)) [
        | inl same ↦
            let found = rw same at (answers c.key c.value) in
            (
              λ left.
                  absurd (items_taken node (read.read_items c.value) (rw found at (h.0 left).1)),
              λ other. absurd (other (sym (eq_of_test rig_conf c.key same))),
            )
        | inr differs ↦
            let found = rw differs at (answers c.key c.value) in
            (
              λ left e. ne_of_test rig_conf c.key differs (sym e),
              λ other. h.1 (refl, inl (ap (λ r. r.1) found)),
            )
      ])

  -- What the dealers of a started demo answer to a request for a job.
  abbrev pub Answers : DealerMap DemoRequest DemoRsp → Type 0
  Answers dealers =
      (name body : Text)
      → invoke name body dealers ≡ (
          if lit "/myjob" == name
          then answer (job_dealer read) (read_as job (read.read_job body))
          else (none, some dealer_no_exists))

  pub demo_job_dealers-Answers :
      (register_job_dealer (lit "/myjob") (function 1 2 true (job_dealer read)) []
        ≡ (none, demo_job_dealers read))
      × Answers (demo_job_dealers read)
  unfolding register_job_dealer
  demo_job_dealers-Answers =
      let (after, registered, answers) = register-first (lit "/myjob") (job_dealer read) in
      let is_after : demo_job_dealers read ≡ after = ap (λ r. r.1) registered in
      rw is_after (registered, answers)
