-- ===== src/Demo/Distributed.antt =====
-- A job of `demoDistributeJobs` (cmd/hraftd/main.go) at a peer that runs the demo.
use hraftd.Common.{ℕ, ◌≡◌, refl, ap, ◌∙◌, Option, none, some, ◌++◌}
use hraftd.Common.Text.{Text, lit, eq_refl}
use hraftd.Common.Result.{ok}
use hraftd.Common.Map.{Map}
use hraftd.Address.{do_job_path, url}
use hraftd.Http.{HttpRequest}
use hraftd.Args.Fixing.{Arg}
use hraftd.Model.{Peer}
use hraftd.Dealers.{answer, invoke, DealerMap}
use hraftd.World.{Codec}
use hraftd.Env.{Env}
use hraftd.Service.Answers.{Payload, no_response, S}
use hraftd.Service.Routes.{serve_http}
use hraftd.Jobs.{JobRsp}
use hraftd.Jobs.Served.{sent, IsWire, handed_back, distribute_job-served}
use hraftd.Demo.{JobReq, DemoRsp, no_demo_rsp, my_job, job_req, distributed, demo_job_at}
use hraftd.Demo.Main.{DemoRequest, Reading, job, read_as, job_dealer, demo_env}
use hraftd.Demo.Answering.{Answers}

module _ (read : Reading) (base : Env) (a : Arg) (dealers : DealerMap DemoRequest DemoRsp) where
  -- the node of the peer
  abbrev worker : Env
  worker = demo_env read base a dealers

  -- Where the post of a job of the demo to a peer is answered with what ServeHTTP of a node that runs
  -- the demo writes for it, and the request is read as what was sent, the job ends as `myJob` ends
  -- it: it is reported as processed, without an error.
  pub demo_job_at-served :
      {wire : Payload base.Json DemoRsp → Text} {json_of : Option DemoRsp → Text}
      {job_rsp : Codec JobRsp} (json : IsWire wire json_of job_rsp) (env : Env)
      (demo_rsp : Codec DemoRsp) (encode_req : JobReq → Text) (i : ℕ) (p : Peer)
      (s s' : env.world.State) (now : S worker → ℕ) (kv : Map Text) (r : HttpRequest) (t : S worker)
      → Answers read dealers
      → ((v : DemoRsp) → demo_rsp.decode (json_of (some v)) ≡ (v, none))
      → r.method ≡ lit "POST"
      → r.path ≡ do_job_path ++ lit "/myjob"
      → r.url ≡ do_job_path ++ lit "/myjob"
      → r.body ≡ ok (encode_req (job_req i))
      → read.read_job (base.read_bytes (ok (encode_req (job_req i)))) ≡ ok (job_req i)
      → env.world.http_post (url p.id (do_job_path ++ lit "/myjob")) (encode_req (job_req i)) s
        ≡ (ok (200, sent wire (serve_http worker now kv no_response r t).0.written), s')
      → demo_job_at env job_rsp demo_rsp encode_req i (some p) s
        ≡ some (distributed p.id (my_job (job_req i)), s')
  unfolding demo_job_at my_job
  demo_job_at-served {json_of = json_of} json env demo_rsp encode_req i p s s' now kv r t answers
        out m rp ru body decoded post =
      let name = lit "/myjob" in
      let req = encode_req (job_req i) in
      let found : invoke name (base.read_bytes (ok req)) dealers
          ≡ answer (job_dealer read) (read_as job (read.read_job (base.read_bytes (ok req)))) =
        rw (eq_refl name) at (answers name (base.read_bytes (ok req))) in
      let done : invoke name (base.read_bytes (ok req)) dealers
          ≡ (some (my_job (job_req i)).0, none) =
        found ∙ rw decoded refl in
      let served =
        distribute_job-served worker json demo_rsp no_demo_rsp env.world p name req s s' now kv r t
          m rp ru body post in
      ap (λ (r, s'). some (distributed p.id r, s'))
        (served
          ∙ ap (λ x. (handed_back demo_rsp no_demo_rsp json_of x, s')) done
          ∙ ap (λ x. (x, s')) (out (my_job (job_req i)).0))
