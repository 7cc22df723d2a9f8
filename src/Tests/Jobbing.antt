-- ===== src/Tests/Jobbing.antt =====
-- A job that one node gives to another, and the demo program.
use hraftd.Common.{
  ℕ, ◌≡◌, ◌↔◌, ◌≤◌, refl, ap, ◌∙◌, Bool, true, false, Option, none, some, List, [], ◌∷◌, ◌++◌,
}
use hraftd.Common.Text.{Text, lit, ◌==◌}
use hraftd.Common.Result.{ok}
use hraftd.Common.Map.{lookup}
use hraftd.Address.{do_job_path}
use hraftd.Http.{HttpRequest}
use hraftd.Model.{Peer}
use hraftd.World.{WithError, Codec, Server, World}
use hraftd.Env.{Env}
use hraftd.Dealers.{invoke}
use hraftd.Service.Answers.{Payload, answer_rsp, answer_job, no_response}
use hraftd.Service.Routes.{serve_http}
use hraftd.Jobs.{JobRsp, no_job_rsp, distribute_job}
use hraftd.Jobs.Served.{sent, IsWire, handed_back, distribute_job-served}
use hraftd.Demo.{stop_async, leader_changing}
use hraftd.Demo.Leading.{fresh, leader_changing-twice}
use hraftd.Tests.Packing.{pack, unpack, unpack-pack}
use hraftd.Tests.Sample.{sample, one_server}

leader_changing-twice_example :
    ((leader_changing (true ∷ false ∷ true ∷ false ∷ []) fresh ≡ none) ↔ (2 ≤ 2))
    × (2 ≤ 1
        → leader_changing (true ∷ false ∷ true ∷ false ∷ []) fresh
          ≡ some (record { started = 2; stop_closed = true }))
leader_changing-twice_example = leader_changing-twice (true ∷ false ∷ true ∷ false ∷ [])

lost_twice : leader_changing (true ∷ false ∷ true ∷ false ∷ []) fresh ≡ none
unfolding leader_changing stop_async
lost_twice = refl

abbrev pub bool_text : Bool → Text
bool_text true = b't' ∷ []
bool_text false = []

abbrev json_of : Option Text → Text
json_of none = []
json_of (some v) = v

abbrev Sent : Type 0
Sent = Payload ℕ Text

-- What stands in for JSON here.
abbrev pub wire : Sent → Text
wire (answer_job v) = pack (bool_text true ∷ lit "ok" ∷ json_of v ∷ [])
wire (answer_rsp r) = pack (bool_text r.success ∷ r.msg ∷ r.payload ∷ [])
wire _ = []

abbrev pub read_rsp : List Text → WithError JobRsp
read_rsp ([] ∷ msg ∷ payload ∷ []) =
    (record { success = false; msg = msg; payload = payload }, none)
read_rsp ((_ ∷ _) ∷ msg ∷ payload ∷ []) =
    (record { success = true; msg = msg; payload = payload }, none)
read_rsp _ = (no_job_rsp, some (lit "?"))

abbrev pub codec : Codec JobRsp
codec = record {
  encode = λ r. [];
  decode = λ s. read_rsp (unpack s);
  decode_first = λ s. read_rsp (unpack s);
}

pub read_as :
    (ok_text : Bool) (msg payload : Text)
    → read_rsp (bool_text ok_text ∷ msg ∷ payload ∷ [])
      ≡ (record { success = ok_text; msg = msg; payload = payload }, none)
read_as true msg payload = refl
read_as false msg payload = refl

pub codec-IsWire : IsWire wire json_of codec
codec-IsWire = record {
  of_job = λ v.
      ap read_rsp (unpack-pack (bool_text true ∷ lit "ok" ∷ json_of v ∷ []))
      ∙ read_as true (lit "ok") (json_of v);
  of_rsp = λ r.
      ap read_rsp (unpack-pack (bool_text r.success ∷ r.msg ∷ r.payload ∷ []))
      ∙ read_as r.success r.msg r.payload;
}

-- A peer with one dealer.
abbrev worker : Env
worker = record sample {
  dealers =
      (
        lit "/myjob",
        record {
          decode = λ body. ok body;
          call = λ req. (some (req ++ lit " is processed"), none);
        },
      )
      ∷ [];
}

abbrev pub job : HttpRequest
job = record {
  method = lit "POST";
  scheme = [];
  url_host = [];
  path = do_job_path ++ lit "/myjob";
  url = do_job_path ++ lit "/myjob";
  host = lit "10.0.0.1:11000";
  remote_addr = lit "10.0.0.2:999";
  header = [];
  body = ok (lit "7");
}

abbrev now : Option Server → ℕ
now s = 0

-- The surroundings of a node whose posts all reach that peer as the job.
abbrev caller : World
caller = record one_server {
  http_post = λ url body s.
      (ok (200, sent wire (serve_http worker now [] no_response job none).0.written), s);
}

abbrev worker_peer : Peer
worker_peer = record { address = []; id = worker.node_id; state = []; suffrage = [] }

abbrev as_is : Codec Text
as_is = record { encode = λ s. s; decode = λ s. (s, none); decode_first = λ s. (s, none) }

distribute_job-served_example :
    distribute_job as_is [] caller codec worker_peer (lit "/myjob") (lit "7") none
    ≡ (handed_back as_is [] json_of (invoke (lit "/myjob") (lit "7") worker.dealers), none)
distribute_job-served_example =
    distribute_job-served worker codec-IsWire as_is [] caller worker_peer (lit "/myjob") (lit "7")
      none none now [] job none refl refl refl refl refl

handled :
    handed_back as_is [] json_of (invoke (lit "/myjob") (lit "7") worker.dealers)
    ≡ (lit "7 is processed", none)
unfolding invoke lookup ◌==◌
handled = refl
