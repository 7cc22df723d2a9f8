-- ===== src/Service/Saved.antt =====
-- What becomes of the cluster that `saveCluster` sets (service_raft.go), when `Apply` (store.go) gets it.
use hraftd.Common.{◌≡◌, refl, ◌∙◌, ℕ, true, none, some, List, Bool-cases, inl, inr}
use hraftd.Common.Text.{Text}
use hraftd.Common.Result.{ok}
use hraftd.Common.Map.{Map, insert}
use hraftd.Model.{RaftCluster}
use hraftd.Dealers.{nil}
use hraftd.Common.Utf8.{IsUtf8}
use hraftd.World.{WithError, Server, IsRaft, IsJson, IsClock}
use hraftd.Env.{Env}
use hraftd.Store.State.{Store, too_old}
use hraftd.Store.Machine.{set, set_command, apply}
use hraftd.Store.Leader.{cluster}
use hraftd.Store.Clusters.{cluster-servers}
use hraftd.Store.Fsm.{PassesOn, read_back, apply-set_command}
use hraftd.Service.Answers.{S}
use hraftd.Service.Rafts.{saved_key, save_seen, save_cluster}

module _ (env : Env) (raft : IsRaft env.world) (json : IsJson env.codecs)
    (clock : IsClock env.clock) (now : S env → ℕ) where
  open env use {codecs, world}

  save_seen-proposes :
      (x : WithError RaftCluster × S env)
      → x.0.1 ≡ none
      → world.is_leader x.1 ≡ true
      → save_seen env now x
        ≡ (world.raft_apply
            (codecs.command.encode
              (set_command env saved_key (codecs.cluster.encode x.0.0) (now x.1)))
            x.1).1
  unfolding save_seen set
  save_seen-proposes ((c, some e), s) h leads = absurd (cc)
  save_seen-proposes ((c, none), s) h leads = rw (leads, save_seen, set) refl

  set_saved-state :
      (value : Text) (t at : ℕ) (node : Store env)
      → IsUtf8 value
      → PassesOn env (set_command env saved_key value t)
      → (kv : Map Text) × (apply env at
            (codecs.command.encode (set_command env saved_key value t))
            node
          ≡ some (nil, record node { kv = kv }))
  set_saved-state value t at node text passes =
      let e =
        apply-set_command env json clock saved_key value t at node refl text (λ same. cc) passes in
      elim (Bool-cases (too_old (read_back env t) at)) [
        | inl old ↦ (node.kv, e ∙ rw old refl)
        | inr young ↦ (insert saved_key value node.kv, e ∙ rw young refl)
      ]

  -- If the JSON text of the cluster is UTF-8, the entry that saving it hands to the raft library never reaches the code that keeps the
  -- cluster: whichever node applies it and whenever, it changes the map at most, and neither peers.json
  -- nor anything else in the node's surroundings.
  pub save_cluster-unseen :
      (s : S env) (l : List Server)
      → world.configuration s ≡ ok l
      → world.is_leader (cluster env s).1 ≡ true
      → IsUtf8 (codecs.cluster.encode (cluster env s).0.0)
      → ((value : Text) (t : ℕ) → PassesOn env (set_command env saved_key value t))
      → (entry : Text) × (save_cluster env now s ≡ (world.raft_apply entry (cluster env s).1).1)
        × ((at : ℕ) (node : Store env)
            → (kv : Map Text) × (apply env at entry node ≡ some (nil, record node { kv = kv })))
  save_cluster-unseen s l conf leads text passes =
      let x = cluster env s in
      let (no_error, _, _, _) = cluster-servers env raft s l conf in
      let value = codecs.cluster.encode x.0.0 in
      (
        codecs.command.encode (set_command env saved_key value (now x.1)),
        unfold save_cluster in save_seen-proposes x no_error leads,
        λ at node. set_saved-state value (now x.1) at node text (passes value (now x.1)),
      )
