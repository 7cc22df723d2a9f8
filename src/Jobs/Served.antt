-- ===== src/Jobs/Served.antt =====
-- A job from the node that hands it out to the dealer that does it and back: `DistributeJob`
-- (peerjob.go), `ServeHTTP` (service.go) and `handleJobRequest` (job.go).
use hraftd.Common.{ℕ, ◌≡◌, refl, ap, ◌∙◌, true, Option, none, some, List, [], ◌∷◌, ◌++◌, append-nil}
use hraftd.Common.Text.{Text, lit, ◌==◌, has_prefix, trim_prefix-append}
use hraftd.Common.Result.{ok, err}
use hraftd.Common.Map.{Map}
use hraftd.Address.{do_job_path, url}
use hraftd.Http.{HttpRequest}
use hraftd.Model.{Peer, Rsp}
use hraftd.World.{WithError, Codec, World}
use hraftd.Env.{Env}
use hraftd.Dealers.{DealerError, invoke}
use hraftd.Remote.{post_json}
use hraftd.Service.Answers.{
  Payload, answer_job, answer_rsp, no_response, error_rsp, S, W, check_method_e, write_header,
  write, report,
}
use hraftd.Service.Routes.{message, job_done, handle_job_request, serve_http}
use hraftd.Jobs.{JobRsp, no_job_rsp, job_answer, distribute_job}

-- What a response holds once it is sent: the JSON of each value, one after the other.
abbrev pub sent :
    {Json Value : Type 0} → (Payload Json Value → Text) → List (Payload Json Value) → Text
sent wire [] = []
sent wire (p ∷ ps) = wire p ++ sent wire ps

-- JSON as the two nodes read and write it: what the one writes of an answer to a job, or of an error,
-- the other reads as a response to a job, with the JSON of the dealer's answer in it.
pub record IsWire {Json Value : Type 0} (wire : Payload Json Value → Text)
    (json_of : Option Value → Text) (codec : Codec JobRsp) : Type 0 where
  pub of_job :
      (v : Option Value)
      → codec.decode (wire (answer_job v))
        ≡ (record { success = true; msg = lit "ok"; payload = json_of v }, none)
  pub of_rsp :
      (r : Rsp)
      → codec.decode (wire (answer_rsp r))
        ≡ (record { success = r.success; msg = r.msg; payload = r.payload }, none)

-- What a dealer's answer is to the node that asked for it.
abbrev pub handed_back :
    {A Value : Type 0}
    → Codec A
    → A
    → (Option Value → Text)
    → Option Value × Option DealerError
    → WithError A
handed_back out rsp json_of (v, some e) = (rsp, some (message e))
handed_back out rsp json_of (v, none) = out.decode (json_of v)

post_json-answered :
    (w : World) {A : Type 0} (codec : Codec A) (zero_value : A) {url body rsp : Text} {status : ℕ}
    {s s' : w.State}
    → w.http_post url body s ≡ (ok (status, rsp), s')
    → post_json w codec zero_value url body s ≡ (codec.decode rsp, s')
unfolding post_json
post_json-answered w codec zero_value e =
    ap
      (λ x. elim x.0 [
        | err e ↦ ((zero_value, some e), x.1)
        | ok (status, rsp) ↦ (codec.decode rsp, x.1)
      ])
      e

module _ (env : Env) {json_of : Option env.Value → Text} {wire : Payload env.Json env.Value → Text}
    {codec : Codec JobRsp} (json : IsWire wire json_of codec) where
  -- the answer to a job that a dealer has answered so
  read_back :
      {A : Type 0} (out : Codec A) (rsp : A) (s : S env)
      (done : Option env.Value × Option DealerError)
      → job_answer out rsp
          (codec.decode (sent wire (report env (job_done env no_response s done)).0.written))
        ≡ handed_back out rsp json_of done
  unfolding job_done report write write_header job_answer
  read_back out rsp s (v, some e) =
      rw
        (
          append-nil (wire (answer_rsp (error_rsp env (message e)))),
          json.of_rsp (error_rsp env (message e)),
        )
        refl
  read_back out rsp s (v, none) = rw (append-nil (wire (answer_job v)), json.of_job v) refl

  -- the route of a job
  serve_http-job :
      (now : S env → ℕ) (kv : Map Text) (w : W env) (r : HttpRequest) (s : S env) (path : Text)
      → r.method ≡ lit "POST"
      → r.path ≡ do_job_path ++ path
      → r.url ≡ do_job_path ++ path
      → serve_http env now kv w r s
        ≡ report env (job_done env w s (invoke path (env.read_bytes r.body) env.dealers))
  unfolding serve_http check_method_e handle_job_request has_prefix ◌==◌
  serve_http-job now kv w r s path m p u = rw (m, p, u, trim_prefix-append do_job_path path) refl

  -- Where the post of a job's request to a peer is answered with what ServeHTTP of that peer's node
  -- writes for it, DistributeJob returns what the dealer that is registered there for the job makes
  -- of the request: its answer read from JSON, or the message of its error, with `rsp` as it was,
  -- where the dealer fails, or cannot read the request, or is not there.
  pub distribute_job-served :
      {A : Type 0} (out : Codec A) (rsp : A) (w : World) (p : Peer) (path req : Text)
      (s s' : w.State) (now : S env → ℕ) (kv : Map Text) (r : HttpRequest) (t : S env)
      → r.method ≡ lit "POST"
      → r.path ≡ do_job_path ++ path
      → r.url ≡ do_job_path ++ path
      → r.body ≡ ok req
      → w.http_post (url p.id (do_job_path ++ path)) req s
        ≡ (ok (200, sent wire (serve_http env now kv no_response r t).0.written), s')
      → distribute_job out rsp w codec p path req s
        ≡ (handed_back out rsp json_of (invoke path (env.read_bytes (ok req)) env.dealers), s')
  unfolding distribute_job
  distribute_job-served out rsp w p path req s s' now kv r t m rp ru body post =
      ap (λ x. (job_answer out rsp x.0, x.1)) (post_json-answered w codec no_job_rsp post)
      ∙ rw (serve_http-job now kv no_response r t path m rp ru, body)
          (ap (λ x. (x, s'))
            (read_back out rsp t (invoke path (env.read_bytes (ok req)) env.dealers)))
