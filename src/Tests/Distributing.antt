-- ===== src/Tests/Distributing.antt =====
-- A job of the demo at a peer that runs it.
use hraftd.Common.{ℕ, ◌≡◌, refl, ap, ◌∙◌, true, Option, none, some, List, [], ◌∷◌}
use hraftd.Common.Text.{Text, lit}
use hraftd.Common.Result.{ok}
use hraftd.Args.Flags.{made_arg}
use hraftd.Http.{HttpRequest}
use hraftd.Model.{Peer}
use hraftd.World.{WithError, Codec, Server, World}
use hraftd.Env.{Env}
use hraftd.Service.Answers.{Payload, answer_rsp, answer_job, no_response}
use hraftd.Service.Routes.{serve_http}
use hraftd.Jobs.Served.{sent, IsWire}
use hraftd.Demo.{JobReq, DemoRsp, no_demo_rsp, my_job, job_req, distributed, demo_job_at}
use hraftd.Demo.Assigned.{Assigned}
use hraftd.Demo.Main.{Reading, demo_job_dealers, demo_env}
use hraftd.Demo.Answering.{demo_job_dealers-Answers}
use hraftd.Demo.Distributed.{demo_job_at-served}
use hraftd.Tests.Packing.{pack, unpack, unpack-pack}
use hraftd.Tests.Sample.{sample, one_server}
use hraftd.Tests.Jobbing.{bool_text, read_rsp, read_as, codec, job}

abbrev json_of : Option DemoRsp → Text
json_of none = []
json_of (some v) = pack (v.reply ∷ v.msg ∷ [])

abbrev wire : Payload ℕ DemoRsp → Text
wire (answer_job v) = pack (bool_text true ∷ lit "ok" ∷ json_of v ∷ [])
wire (answer_rsp r) = pack (bool_text r.success ∷ r.msg ∷ r.payload ∷ [])
wire _ = []

codec-IsWire : IsWire wire json_of codec
codec-IsWire = record {
  of_job = λ v.
      ap read_rsp (unpack-pack (bool_text true ∷ lit "ok" ∷ json_of v ∷ []))
      ∙ read_as true (lit "ok") (json_of v);
  of_rsp = λ r.
      ap read_rsp (unpack-pack (bool_text r.success ∷ r.msg ∷ r.payload ∷ []))
      ∙ read_as r.success r.msg r.payload;
}

abbrev read_demo : List Text → WithError DemoRsp
read_demo (reply ∷ msg ∷ []) = (record { reply = reply; msg = msg }, none)
read_demo _ = (no_demo_rsp, some (lit "?"))

abbrev demo_codec : Codec DemoRsp
demo_codec = record {
  encode = λ v. json_of (some v);
  decode = λ s. read_demo (unpack s);
  decode_first = λ s. read_demo (unpack s);
}

demo_codec-reads : (v : DemoRsp) → demo_codec.decode (json_of (some v)) ≡ (v, none)
demo_codec-reads v = ap read_demo (unpack-pack (v.reply ∷ v.msg ∷ []))

abbrev reading : Reading
reading = record { read_items = λ s. ok []; read_job = λ s. ok (record { id = s }) }

abbrev worker : Env
worker = demo_env reading sample made_arg (demo_job_dealers reading)

abbrev encode_req : JobReq → Text
encode_req r = r.id

abbrev request : HttpRequest
request = record job { body = ok (encode_req (job_req 3)) }

abbrev now : Option Server → ℕ
now s = 0

-- The surroundings of a node whose posts all reach that peer as the job.
abbrev caller : World
caller = record one_server {
  http_post = λ url body s.
      (ok (200, sent wire (serve_http worker now [] no_response request none).0.written), s);
}

abbrev leader : Env
leader = record sample { world = caller }

abbrev peer : Peer
peer = record { address = []; id = lit "10.0.0.2:11000,10.0.0.2:12000"; state = []; suffrage = [] }

demo_job_at-served_example :
    demo_job_at leader codec demo_codec encode_req 3 (some peer) none
    ≡ some (distributed peer.id (my_job (job_req 3)), none)
demo_job_at-served_example =
    demo_job_at-served reading sample made_arg (demo_job_dealers reading) codec-IsWire leader
      demo_codec encode_req 3 peer none none now [] request none
      (demo_job_dealers-Answers reading).1 demo_codec-reads refl refl refl refl refl refl
