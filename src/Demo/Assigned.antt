-- ===== src/Demo/Assigned.antt =====
-- Which node does which job of `demoDistributeJobs` (cmd/hraftd/main.go).
use hraftd.Common.{ℕ, ◌+◌, ◌%◌, ◌≡◌, some, List, [], ◌∷◌, length, get_elem?}
use hraftd.Common.Text.{Text, lit}
use hraftd.Model.{Peer}
use hraftd.World.{Codec}
use hraftd.Env.{Env}
use hraftd.Jobs.{JobRsp, distribute_job}
use hraftd.Demo.{JobReq, DemoRsp, no_demo_rsp, my_job, job_req, JobDone, distributed, processed}

module _ (env : Env) (job_rsp : Codec JobRsp) (demo_rsp : Codec DemoRsp)
    (encode_req : JobReq → Text) where
  open env use {world}

  -- Job `i` was done: its request was posted, with the path "/myjob", to the peer whose turn it is, and
  -- what came back is the result; or the node itself did it, if there is no peer.
  abbrev pub IsAt : List Peer → ℕ → world.State → JobDone → world.State → Type 0
  IsAt [] i s done s' = (done ≡ processed (my_job (job_req i))) × (s' ≡ s)
  IsAt (p ∷ peers) i s done s' =
      (at : Peer) × (get_elem? (p ∷ peers) (i % length (p ∷ peers)) ≡ some at)
      × (let (result, left) =
            distribute_job demo_rsp no_demo_rsp world job_rsp at (lit "/myjob")
              (encode_req (job_req i)) s in
          (done ≡ distributed at.id result) × (s' ≡ left))

  -- The jobs from job `i` on were done one after the other.
  abbrev pub Assigned : List Peer → ℕ → world.State → List JobDone → world.State → Type 0
  Assigned active i s [] s' = s' ≡ s
  Assigned active i s (done ∷ jobs) s' =
      (between : world.State) × IsAt active i s done between
      × Assigned active (i + 1) between jobs s'
