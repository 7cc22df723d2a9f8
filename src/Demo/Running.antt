-- ===== src/Demo/Running.antt =====
-- How `main` (cmd/hraftd/main.go) goes on, and what its dealers answer where it has started.
use hraftd.Common.{
  ◌≡◌, ◌≢◌, refl, sym, subst, ap, ◌∙◌, Bool, true, Option, none, some, List, [], Option-cases, inl,
  inr,
}
use hraftd.Common.Text.{Text, lit}
use hraftd.Common.Result.{Result, ok, err}
use hraftd.Args.Fixing.{Arg, Machine, fix_arg, convert_to_zero_host}
use hraftd.Args.Flags.{FlagNames, FlagProvider, define_flags}
use hraftd.Dealers.{register_job_dealer, function}
use hraftd.Env.{Env}
use hraftd.Store.Opening.{Opening, open_store}
use hraftd.Store.Waiting.{Event}
use hraftd.Store.Waits.{Ends}
use hraftd.Start.{Listening, ServiceOn, create, listened, go_start_http}
use hraftd.Start.Returns.{start_all-Ends}
use hraftd.Demo.{Ticking, leader_changing}
use hraftd.Demo.Leading.{fresh}
use hraftd.Demo.Main.{
  Reading, job_dealer, demo_env, DemoService, Launch, flags_clash, flags_refused, fix_panics,
  store_panics, leader_panics, http_refused, started, started_all, registered, demo_job_dealers,
  launch, main,
}
use hraftd.Demo.Answering.{Answers, demo_job_dealers-Answers}

-- A node that listens has its listener, and its dealers as they were.
go_start_http-listens :
    (env : Env) (net : Listening env.world.State) (m : Machine) (a : Arg)
    (service : ServiceOn env net.Listener) (s : env.world.State)
    → (go_start_http env net m a service s).0 ≡ none
    → ((go_start_http env net m a service s).1.0.ln ≢ none)
      × ((go_start_http env net m a service s).1.0.dealers ≡ service.dealers)
unfolding go_start_http listened
go_start_http-listens env net m a service s h =
    go (net.listen (convert_to_zero_host m a a.http_addr) s) h
  where
    go :
        (r : Result net.Listener × env.world.State)
        → (listened env net m service r).0 ≡ none
        → ((listened env net m service r).1.0.ln ≢ none)
          × ((listened env net m service r).1.0.dealers ≡ service.dealers)
    go (err e, s') h = cc
    go (ok ln, s') h = (λ k. cc, refl)

module _ (read : Reading) (base : Env) (m : Machine) (o : Opening base.world)
    (net : Listening base.world.State) where
  -- the service behind Create and RegisterJobDealer
  abbrev pub demo_service : DemoService read base m o net
  demo_service = record { ln = none; leader_ch = none; dealers = demo_job_dealers read }

  -- the service behind Create
  abbrev idle : DemoService read base m o net
  idle = record { ln = none; leader_ch = none; dealers = [] }

  -- what Open leaves
  abbrev pub opens : Arg → base.world.State → Option Text × base.world.State
  opens a s = open_store (demo_env read base a []) o a s

  -- what GoStartHTTP leaves, behind Open
  abbrev pub listens :
      Arg → base.world.State → Option Text × (DemoService read base m o net × base.world.State)
  listens a s = go_start_http (demo_env read base a []) net m a demo_service (opens a s).1

  create-opened :
      (a : Arg) (s : base.world.State)
      → (opens a s).0 ≡ none
      → create (demo_env read base a []) {Listener = net.Listener} o a s
        ≡ some (idle, (opens a s).1)
  unfolding create
  create-opened a s h = rw (h, create) refl

  create-panics :
      (a : Arg) (s : base.world.State) (e : Text)
      → (opens a s).0 ≡ some e
      → create (demo_env read base a []) {Listener = net.Listener} o a s ≡ none
  unfolding create
  create-panics a s e h = rw (h, create) refl

  module _ (elections applications : List (Event base.world.State)) (leaders : List Bool) where
    -- what the goroutine has done to its ticker
    abbrev pub changed : Option Ticking
    changed = leader_changing leaders fresh

    -- What has to be so behind Fix where main goes on like this.
    abbrev pub IsLaunch : Arg → base.world.State → Launch read base m o net → Type 0
    IsLaunch a s store_panics = (opens a s).0 ≢ none
    IsLaunch a s leader_panics = ((opens a s).0 ≡ none) × (changed ≡ none)
    IsLaunch a s (http_refused e) =
        ((opens a s).0 ≡ none) × (changed ≢ none) × ((listens a s).0 ≡ some e)
    IsLaunch a s (started a' service s' t) =
        (a' ≡ a)
        × ((opens a s).0 ≡ none)
        × (changed ≡ some t)
        × ((listens a s).0 ≡ none)
        × (service ≡ (listens a s).1.0)
        × (service.ln ≢ none)
        × Answers read service.dealers
    IsLaunch a s _ = ⊥

    started_all-IsLaunch :
        (a : Arg) (s s' : base.world.State)
        → (opens a s).0 ≡ none
        → IsLaunch a s (
            started_all read base m o net a changed
              (some ((listens a s).0, ((listens a s).1.0, s'))))
    started_all-IsLaunch a s s' opened = elim (Option-cases changed) [
      | inl panics ↦ rw (panics, started_all) (opened, panics)
      | inr (t, changes) ↦
          let env = demo_env read base a [] in
          let still : changed ≢ none = λ e. cc in
          elim (Option-cases (listens a s).0) [
            | inr (e, refused) ↦ rw (changes, refused, started_all) (opened, still, refused)
            | inl listening ↦
                let (ln, dealers) =
                  go_start_http-listens env net m a demo_service (opens a s).1 listening in
                rw (changes, listening, started_all)
                  (
                    refl,
                    opened,
                    changes,
                    listening,
                    refl,
                    ln,
                    rw dealers (demo_job_dealers-Answers read).1,
                  )
          ]
    ]

    launch-created :
        (a : Arg) (s : base.world.State)
        → (opens a s).0 ≡ none
        → launch read base m o net elections applications leaders s (some a)
          ≡ registered read base m o net elections applications leaders a idle
              (opens a s).1
              (register_job_dealer (lit "/myjob") (function 1 2 true (job_dealer read)) [])
    unfolding launch
    launch-created a s opened = rw (create-opened a s opened, launch) refl

    launch-none :
        (s : base.world.State)
        → launch read base m o net elections applications leaders s none ≡ fix_panics
    unfolding launch
    launch-none s = refl

    launch-IsLaunch :
        (a : Arg) (s : base.world.State)
        → Ends elections
        → Ends applications
        → IsLaunch a s (launch read base m o net elections applications leaders s (some a))
    unfolding launch
    launch-IsLaunch a s el al = elim (Option-cases (opens a s).0) [
      | inr (e, fails) ↦ rw (create-panics a s e fails, launch) (λ k. cc)
      | inl opened ↦
          let env = demo_env read base a [] in
          let (s', runs) =
            start_all-Ends env net m a elections applications demo_service (opens a s).1 el al in
          let same =
            launch-created a s opened
            ∙ ap (registered read base m o net elections applications leaders a idle (opens a s).1)
                (demo_job_dealers-Answers read).0
            ∙ ap (started_all read base m o net a changed) runs in
          subst (IsLaunch a s) (sym same) (started_all-IsLaunch a s s' opened)
    ]

    module _ (p : FlagProvider) (set_defaults : FlagNames → FlagNames)
        (parse : p.State → Arg → Option Arg) (flags : p.State) where
      -- The flags are defined and read as these.
      abbrev pub Reads : Arg → Type 0
      Reads a =
          (flags' : p.State) × (arg : Arg) × (define_flags p set_defaults [] flags
            ≡ some (flags', arg))
          × (parse flags' arg ≡ some a)

      -- What has to be so where main goes on like this.
      abbrev pub IsOutcome : base.world.State → Launch read base m o net → Type 0
      IsOutcome s flags_clash = define_flags p set_defaults [] flags ≡ none
      IsOutcome s flags_refused =
          (flags' : p.State) × (arg : Arg) × (define_flags p set_defaults [] flags
            ≡ some (flags', arg))
          × (parse flags' arg ≡ none)
      IsOutcome s fix_panics = (a : Arg) × Reads a × (fix_arg m a ≡ none)
      IsOutcome s launched =
          (read_arg a : Arg) × Reads read_arg
          × (fix_arg m read_arg ≡ some a)
          × IsLaunch a s launched

      launched-IsOutcome :
          (s : base.world.State) (read_arg a : Arg) (l : Launch read base m o net)
          → Reads read_arg
          → fix_arg m read_arg ≡ some a
          → IsLaunch a s l
          → IsOutcome s l
      launched-IsOutcome s read_arg a flags_clash reads fixed h = elim h [ ]
      launched-IsOutcome s read_arg a flags_refused reads fixed h = elim h [ ]
      launched-IsOutcome s read_arg a fix_panics reads fixed h = elim h [ ]
      launched-IsOutcome s read_arg a _ reads fixed h = (read_arg, a, reads, fixed, h)

      -- Once the times to wait end, main is not waiting any more, and the job's dealer is never
      -- refused. The demo has started exactly if its flags are defined and read, `Fix` does not panic,
      -- the store opens, the goroutine that follows the leadership has not panicked and the node can
      -- listen for HTTP: it listens then, and its dealers answer a job at "/myjob" and nothing else. If
      -- one of these fails, the first that does is how the program ends, with the error of listening
      -- for HTTP where it is that; a panic of the goroutine comes before it.
      pub main-IsOutcome :
          (s : base.world.State)
          → Ends elections
          → Ends applications
          → IsOutcome s
              (main read base m o net elections applications leaders p set_defaults parse flags s)
      unfolding main
      main-IsOutcome s el al = elim (Option-cases (define_flags p set_defaults [] flags)) [
        | inl clash ↦ rw (clash, main) clash
        | inr ((flags', arg), defined) ↦ elim (Option-cases (parse flags' arg)) [
          | inl refused ↦ rw (defined, main) (rw refused (flags', arg, defined, refused))
          | inr (read_arg, parsed) ↦
              let reads : Reads read_arg = (flags', arg, defined, parsed) in
              let same : main read base m o net elections applications leaders p set_defaults parse
                    flags s
                  ≡ launch read base m o net elections applications leaders s (fix_arg m read_arg) =
                rw (defined, main) (rw parsed refl) in
              elim (Option-cases (fix_arg m read_arg)) [
                | inl panics ↦
                    subst (IsOutcome s)
                      (sym (
                        same
                        ∙ ap (launch read base m o net elections applications leaders s) panics
                        ∙ launch-none s))
                      (read_arg, reads, panics)
                | inr (a, fixed) ↦
                    subst (IsOutcome s)
                      (sym (
                        same
                        ∙ ap (launch read base m o net elections applications leaders s) fixed))
                      (launched-IsOutcome s read_arg a _ reads fixed (launch-IsLaunch a s el al))
              ]
        ]
      ]
