-- ===== src/Demo/Entries.antt =====
-- The entries of the log on a node that runs the demo (`main` of cmd/hraftd/main.go, `Apply` of
-- store.go).
use hraftd.Common.{ℕ, ◌≡◌, ◌≢◌, none, some, Option-cases, inl, inr}
use hraftd.World.{WithError}
use hraftd.Args.Fixing.{Arg}
use hraftd.Model.{Command}
use hraftd.Dealers.{Reply, nil, DealerMap, Log, intercept}
use hraftd.Env.{Env}
use hraftd.Store.State.{Store}
use hraftd.Store.Machine.{apply_command, apply_read, apply}
use hraftd.Store.Replicas.{apply_read-passed, apply_read-taken}
use hraftd.Demo.{DemoRsp, rig_conf}
use hraftd.Demo.Main.{DemoRequest, Reading, demo_env}
use hraftd.Demo.Answering.{intercept-demo}

module _ (read : Reading) (base : Env) (a : Arg) (dealers : DealerMap DemoRequest DemoRsp) where
  abbrev env : Env
  env = demo_env read base a dealers

  module _ (now : ℕ) (l : Log) (c : Command) (s : Store env) where
    apply_read-demo :
        (r : WithError Command)
        → r ≡ (c, none)
        → (c.key ≡ rig_conf
            → (reply : Reply DemoRsp) × (apply_read env now l r s ≡ some (reply, s)))
          × (c.key ≢ rig_conf → apply_read env now l r s ≡ some (nil, apply_command env now c s))
    apply_read-demo r e =
        let (left, leaves) = intercept-demo read a.node_id l c in
        rw e (
          λ same. elim (Option-cases (intercept env.interceptor env.log_dealers l c)) [
            | inl passed ↦ absurd (left passed same)
            | inr (reply, taken) ↦ (reply, apply_read-taken env now l c s reply taken)
          ],
          λ other. apply_read-passed env now l c s (leaves other),
        )

    -- On a node that runs the demo, an entry that sets or deletes "rigconf" goes to the demo's dealer
    -- and changes nothing in the store: what the demo's leader proposes at each tick is not kept. Every
    -- other command is left to the store.
    pub apply-demo :
        env.codecs.command.decode l ≡ (c, none)
        → (c.key ≡ rig_conf → (reply : Reply DemoRsp) × (apply env now l s ≡ some (reply, s)))
          × (c.key ≢ rig_conf → apply env now l s ≡ some (nil, apply_command env now c s))
    unfolding apply
    apply-demo decoded = apply_read-demo (env.codecs.command.decode l) decoded
