-- ===== src/Demo.antt =====
-- The demo program (cmd/hraftd/main.go): what it does at each tick of a leader, and how it starts and
-- stops its ticker; its `main` stands in Main. What it prints is the list of the jobs' results. Random
-- numbers and made-up values are parameters.
pub mod Leading
pub mod Items
pub mod Assigned
pub mod Main
pub mod Answering
pub mod Running
pub mod Distributed
pub mod Entries
use hraftd.Common.{
  ℕ, zero, suc, ◌+◌, ◌%◌, Bool, true, false, Option, none, some, List, [], ◌∷◌, ◌++◌, length,
  get_elem?, ltb, if◌then◌else◌,
}
use hraftd.Common.Text.{Text, lit, ◌==◌}
use hraftd.Common.Result.{◌>>=?◌}
use hraftd.Address.{NodeId}
use hraftd.Model.{Peer, RaftCluster, active_peers}
use hraftd.World.{WithError, Codec}
use hraftd.Env.{Env}
use hraftd.Args.Numbers.{decimal}
use hraftd.Jobs.{JobRsp, distribute_job}
use hraftd.Store.Leader.{cluster}
use hraftd.Store.Machine.{set}

-- JobReq and JobRsp of main.go
pub record JobReq : Type 0 where
  pub id : Text

pub record DemoRsp : Type 0 where
  pub reply : Text
  pub msg : Text

abbrev pub no_demo_rsp : DemoRsp
no_demo_rsp = record { reply = []; msg = [] }

-- myJob
unfoldable pub my_job : JobReq → WithError DemoRsp
my_job req = (record { reply = lit "OK"; msg = req.id ++ lit " is processed" }, none)

-- fmt.Sprintf("ID：%d", i)
abbrev pub job_req : ℕ → JobReq
job_req i = record { id = lit "ID" ++ 0xef ∷ 0xbc ∷ 0x9a ∷ decimal i }

-- RigConfItem; `number` is the field ID
pub record RigConfItem : Type 0 where
  pub time : Text
  pub number : ℕ
  pub name : Text
  pub node_id : NodeId

abbrev pub rig_conf : Text
rig_conf = lit "rigconf"

-- The filter of the dealer for "rigconf".
unfoldable pub me_items : NodeId → List RigConfItem → List RigConfItem
me_items node [] = []
me_items node (i ∷ items) =
    let rest = me_items node items in if i.node_id == node then i ∷ rest else rest

-- the inner loop of demoApplyLogs, on the values that are made up for a peer
unfoldable pub items_of : Text → NodeId → List RigConfItem → List RigConfItem
items_of time node [] = []
items_of time node (item ∷ items) =
    record item { time = time; node_id = node } ∷ items_of time node items

-- the outer loop of demoApplyLogs
unfoldable pub all_items : Text → (Peer → List RigConfItem) → List Peer → List RigConfItem
all_items time fake [] = []
all_items time fake (peer ∷ peers) = items_of time peer.id (fake peer) ++ all_items time fake peers

-- How a job of the demo ended: at a peer, or at the node itself.
pub data JobDone : Type 0 where
  distributed : NodeId → WithError DemoRsp → JobDone
  processed : WithError DemoRsp → JobDone

module _ (env : Env) (job_rsp : Codec JobRsp) (demo_rsp : Codec DemoRsp)
    (encode_req : JobReq → Text) where
  open env use {world}

  -- job `i` of demoDistributeJobs, where there are peers; `none` is the panic of an index that is out
  -- of range
  unfoldable pub demo_job_at : ℕ → Option Peer → world.State → Option (JobDone × world.State)
  demo_job_at i none s = none
  demo_job_at i (some peer) s =
      let (r, s') =
        distribute_job demo_rsp no_demo_rsp world job_rsp peer (lit "/myjob")
          (encode_req (job_req i)) s in
      some (distributed peer.id r, s')

  unfoldable pub demo_job : ℕ → List Peer → world.State → Option (JobDone × world.State)
  demo_job i active s =
      if ltb 0 (length active)
      then demo_job_at i (get_elem? active (i % length active)) s
      else some (processed (my_job (job_req i)), s)

  -- the loop of demoDistributeJobs, with so many jobs to go
  unfoldable pub demo_jobs : ℕ → ℕ → List Peer → world.State → Option (List JobDone × world.State)
  demo_jobs zero i active s = some ([], s)
  demo_jobs (suc todo) i active s = demo_job i active s >>=? λ (done, s1).
      demo_jobs todo (i + 1) active s1 >>=? λ (jobs, s2). some (done ∷ jobs, s2)

  -- demoDistributeJobs
  unfoldable pub demo_distribute_jobs :
      List Peer → world.State → Option (List JobDone × world.State)
  demo_distribute_jobs active s = demo_jobs 10 0 active s

  module _ (now : ℕ) (fake : Peer → List RigConfItem) (encode_items : List RigConfItem → Text) where
    -- demoApplyLogs
    unfoldable pub demo_apply_logs : List Peer → world.State → Option Text × world.State
    demo_apply_logs active s =
        set env rig_conf (encode_items (all_items (env.clock.format now) fake active)) now s

    -- tick
    unfoldable pub tick : RaftCluster → world.State → Option (List JobDone × world.State)
    tick c s =
        let active = active_peers c in demo_distribute_jobs active (demo_apply_logs active s).1

    -- the function of the ticker
    unfoldable pub on_tick : world.State → Option (List JobDone × world.State)
    on_tick s =
        let (r, s') = cluster env s in elim r.1 [ some e ↦ some ([], s') | none ↦ tick r.0 s' ]

-- What leaderChanging has done to its ticker: how often it was started, and whether the channel that
-- stops it is closed.
pub record Ticking : Type 0 where
  pub started : ℕ
  pub stop_closed : Bool

-- Ticker.StopAsync: closing a closed channel panics
unfoldable pub stop_async : Ticking → Option Ticking
stop_async t = if t.stop_closed then none else some (record t { stop_closed = true })

-- the loop of leaderChanging, on what comes through the channel
unfoldable pub leader_changing : List Bool → Ticking → Option Ticking
leader_changing [] t = some t
leader_changing (true ∷ leaders) t = leader_changing leaders (record t { started = suc t.started })
leader_changing (false ∷ leaders) t = stop_async t >>=? λ t'. leader_changing leaders t'
