-- ===== src/Store/Interface.antt =====
-- storei.go: the interface that the service has of its store, and `RaftStore` as one; `New` of store.go.
use hraftd.Common.{ℕ, Bool, Option, List, []}
use hraftd.Common.Text.{Text}
use hraftd.Common.Map.{Map}
use hraftd.Common.Result.{Result}
use hraftd.Model.{Peer, RaftCluster}
use hraftd.World.{WithError}
use hraftd.Env.{Env}
use hraftd.Store.State.{Store}
use hraftd.Store.Machine.{get, set, delete_key}
use hraftd.Store.Membership.{join_node, remove}
use hraftd.Store.Leader.{Stat, raft_stats, lead_server, cluster}
use hraftd.Store.Waiting.{Event, wait_for_leader, wait_for_applied}

-- Store of storei.go, over what an implementation keeps and its surroundings; a method that waits is
-- given what happens meanwhile, and `none` is one that still waits. The channel of LeaderCh is left
-- out.
pub record StoreI (Kept S : Type 0) : Type 0 where
  pub get : Text → Kept → Option Text
  pub is_leader : S → Bool
  pub set : Text → Text → S → Option Text × S
  pub delete : Text → S → Option Text × S
  pub join : Text → Text → S → Option Text × S
  pub remove : Text → S → Option Text × S
  pub raft_stats : S → Map Stat
  pub cluster : S → WithError RaftCluster × S
  pub lead_server : S → WithError Peer
  pub wait_for_leader : ℕ → List (Event S) → S → Option (Result Text × S)
  pub wait_for_applied : ℕ → List (Event S) → S → Option (Option Text × S)
  pub node_state : S → Text

module _ (env : Env) where
  open env use {world}

  -- New
  abbrev pub new_store : world.State → Store env
  new_store s = record { kv = []; state = s }

  -- RaftStore as a Store, at a time
  abbrev pub raft_store : ℕ → StoreI (Store env) world.State
  raft_store now = record {
    get = get env;
    is_leader = world.is_leader;
    set = λ key value. set env key value now;
    delete = λ key. delete_key env key now;
    join = join_node env;
    remove = remove env;
    raft_stats = raft_stats env;
    cluster = cluster env;
    lead_server = lead_server env;
    wait_for_leader = λ timeout. wait_for_leader env;
    wait_for_applied = wait_for_applied env;
    node_state = world.node_state;
  }

-- Service.IsLeader, Set and RaftCluster
module _ {Kept S : Type 0} (store : StoreI Kept S) where
  abbrev pub service_is_leader : S → Bool
  service_is_leader s = store.is_leader s

  abbrev pub service_set : Text → Text → S → Option Text × S
  service_set k v s = store.set k v s

  abbrev pub service_raft_cluster : S → WithError RaftCluster × S
  service_raft_cluster s = store.cluster s
