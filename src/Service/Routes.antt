-- ===== src/Service/Routes.antt =====
-- The routes of the HTTP service (service.go), jobs (job.go) and profiles. The answers of package
-- pprof are named by its function or profile.
use hraftd.Common.{ℕ, Option, none, some, List, [], ◌∷◌, ◌++◌, if◌then◌else◌}
use hraftd.Common.Text.{Text, lit, ◌==◌, has_prefix, trim_prefix}
use hraftd.Common.Map.{Map}
use hraftd.Address.{key_path, raft_path, do_job_path}
use hraftd.Dealers.{DealerError, dealer_no_exists, dealer_continue, failed, invoke}
use hraftd.Env.{Env}
use hraftd.Service.Answers.{
  done, refused, Outcome, answer_job, profile, W, S, Handler, HandlerE, write_header, write,
  check_method_e,
}
use hraftd.Service.Keys.{handle_key_request}
use hraftd.Service.Rafts.{handle_raft_request}

-- the message of an error of a dealer
abbrev pub message : DealerError → Text
message dealer_no_exists = lit "dealer does not exist"
message dealer_continue = lit "dealer bypass and should continue"
message (failed e) = e

-- the cases of debugPprof: what answers at a path
abbrev profiles : List Text
profiles =
    lit "pprof"
    ∷ lit "cmdline"
    ∷ lit "symbol"
    ∷ lit "profile"
    ∷ lit "trace"
    ∷ lit "heap"
    ∷ lit "goroutine"
    ∷ lit "allocs"
    ∷ lit "block"
    ∷ lit "threadcreate"
    ∷ lit "mutex"
    ∷ []

abbrev debug_path : Text
debug_path = lit "/debug"

unfoldable pub profile_at : Text → List Text → Option Text
profile_at path [] = none
profile_at path (name ∷ names) =
    if path == debug_path ++ (lit "/" ++ name) then some name else profile_at path names

module _ (env : Env) where
  -- handleJobRequest, given what Invoke returns
  unfoldable pub job_done :
      W env → S env → Option env.Value × Option DealerError → Outcome × (W env × S env)
  job_done w s (rsp, some e) = (refused (message e), (w, s))
  job_done w s (rsp, none) = (done, (write env (answer_job rsp) w, s))

  -- DealerMap.handleJobRequest
  unfoldable pub handle_job_request : HandlerE env
  handle_job_request w r s =
      job_done w s (invoke (trim_prefix r.url do_job_path) (env.read_bytes r.body) env.dealers)

  -- debugPprof; its error is dropped
  unfoldable pub debug_pprof : Handler env
  debug_pprof w r s = elim (profile_at r.path profiles) [
    | some name ↦ (write env (profile name) w, s)
    | none ↦ (write_header env 404 w, s)
  ]

  -- Service.ServeHTTP, on the map that the node holds
  unfoldable pub serve_http : (S env → ℕ) → Map Text → Handler env
  serve_http now kv w r s =
      if has_prefix r.path key_path
      then handle_key_request env now kv w r s
      else if has_prefix r.path raft_path
      then handle_raft_request env now w r s
      else if has_prefix r.path do_job_path
      then check_method_e env (lit "POST") handle_job_request w r s
      else if has_prefix r.path debug_path
      then debug_pprof w r s
      else (write_header env 404 w, s)
