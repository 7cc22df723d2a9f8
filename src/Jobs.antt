-- ===== src/Jobs.antt =====
-- peerjob.go: a job that a node hands to another one over HTTP.
pub mod Served
use hraftd.Common.{Bool, true, false, not, Option, none, some, [], ◌++◌, if◌then◌else◌}
use hraftd.Common.Text.{Text}
use hraftd.Address.{do_job_path, url}
use hraftd.Model.{Peer}
use hraftd.World.{WithError, Codec, World}
use hraftd.Remote.{post_json}

-- JobRsp; `payload` is the raw JSON of `data`
pub record JobRsp : Type 0 where
  pub success : Bool
  pub msg : Text
  pub payload : Text

abbrev pub no_job_rsp : JobRsp
no_job_rsp = record { success = false; msg = []; payload = [] }

module _ {A : Type 0} (out : Codec A) (rsp : A) where
  -- what DistributeJob does with the answer
  unfoldable pub job_answer : WithError JobRsp → WithError A
  job_answer (r, some e) = (rsp, some e)
  job_answer (r, none) = if not r.success then (rsp, some r.msg) else out.decode r.payload

  -- Peer.DistributeJob, on the JSON text of the request; `rsp` is what the caller hands in to be
  -- filled
  unfoldable pub distribute_job :
      (w : World) → Codec JobRsp → Peer → Text → Text → w.State → WithError A × w.State
  distribute_job w codec p path req s =
      let (r, s') = post_json w codec no_job_rsp (url p.id (do_job_path ++ path)) req s in
      (job_answer r, s')
