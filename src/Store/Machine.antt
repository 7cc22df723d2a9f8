-- ===== src/Store/Machine.antt =====
-- The state machine behind raft (store.go): `Apply`, `Get`, `Set`, `Delete`, `Snapshot`, `Persist`,
-- `Restore`.
use hraftd.Common.{ℕ, Bool, false, not, Option, none, some, [], ◌∷◌, if◌then◌else◌}
use hraftd.Common.Text.{Text, ◌==◌}
use hraftd.Common.Map.{Map, lookup, insert, delete}
use hraftd.Common.Result.{ok, err}
use hraftd.Model.{RaftCluster, Command}
use hraftd.Dealers.{Reply, nil, Log, intercept}
use hraftd.World.{WithError}
use hraftd.Env.{Env}
use hraftd.Remote.{try_find_and_join_leader}
use hraftd.Store.State.{
  Store, cluster_key, err_not_leader, format_time, op_delete, op_set, parse_time, too_old,
}
use hraftd.Store.PeersFile.{write_cluster_config_entries}

-- CloneMap of util.go
unfoldable pub clone_from : Map Text → Map Text → Map Text
clone_from [] o = o
clone_from ((k, v) ∷ m) o = clone_from m (insert k v o)

unfoldable pub clone_map : Map Text → Map Text
clone_map m = clone_from m []

-- raft.SnapshotSink: what a snapshot is written to
pub record Sink : Type 1 where
  pub State : Type 0
  pub write : Text → State → Option Text × State
  pub close : State → Option Text × State
  pub cancel : State → Option Text × State

module _ (env : Env) where
  open env use {codecs, clock, world}

  -- processSetRaftCluster, once the value is read
  unfoldable pub set_raft_cluster : WithError RaftCluster → world.State → world.State
  set_raft_cluster (v, some e) s = s
  set_raft_cluster (v, none) s =
      let (e, s') = write_cluster_config_entries env v s in
      elim e [
        | some _ ↦ s'
        | none ↦ if world.leader_addr s' == [] then try_find_and_join_leader env v s' else s'
      ]

  -- RaftStore.processSetRaftCluster
  unfoldable pub process_set_raft_cluster : Command → world.State → world.State
  process_set_raft_cluster c = set_raft_cluster (codecs.cluster.decode c.value)

  -- the case "set" of Apply, behind the test of the time
  unfoldable pub apply_set : Command → Store env → Store env
  apply_set c s =
      if c.key == cluster_key
      then record s { state = process_set_raft_cluster c s.state }
      else record s { kv = insert c.key c.value s.kv }

  -- the time of a command can be read and is not too old
  unfoldable pub is_fresh : ℕ → Command → Bool
  is_fresh now c = elim (parse_time clock c.time) [ err e ↦ false | ok t ↦ not (too_old t now) ]

  -- the switch of Apply
  unfoldable pub apply_command : ℕ → Command → Store env → Store env
  apply_command now c s =
      if c.op == op_set
      then (if is_fresh now c then apply_set c s else s)
      else if c.op == op_delete
      then record s { kv = delete c.key s.kv }
      else s

  -- Apply behind Unmarshal
  unfoldable pub apply_read :
      ℕ → Log → WithError Command → Store env → Option (Reply env.Value × Store env)
  apply_read now l (c, some e) s = none
  apply_read now l (c, none) s = elim (intercept env.interceptor env.log_dealers l c) [
    | some rsp ↦ some (rsp, s)
    | none ↦ some (nil, apply_command now c s)
  ]

  -- RaftStore.Apply at the time `now`; `none` is the panic on an entry that is no command
  unfoldable pub apply : ℕ → Log → Store env → Option (Reply env.Value × Store env)
  apply now l s = apply_read now l (codecs.command.decode l) s

  -- RaftStore.Get
  unfoldable pub get : Text → Store env → Option Text
  get key s = lookup key s.kv

  abbrev pub set_command : Text → Text → ℕ → Command
  set_command key value now = record {
    op = op_set;
    key = key;
    value = value;
    time = format_time clock now;
  }

  abbrev pub delete_command : Text → ℕ → Command
  delete_command key now = record {
    op = op_delete;
    key = key;
    value = [];
    time = format_time clock now;
  }

  -- RaftStore.Set at the time `now`
  unfoldable pub set : Text → Text → ℕ → world.State → Option Text × world.State
  set key value now s =
      if world.is_leader s
      then world.raft_apply (codecs.command.encode (set_command key value now)) s
      else (some err_not_leader, s)

  -- RaftStore.Delete at the time `now`
  unfoldable pub delete_key : Text → ℕ → world.State → Option Text × world.State
  delete_key key now s =
      if world.is_leader s
      then world.raft_apply (codecs.command.encode (delete_command key now)) s
      else (some err_not_leader, s)

  -- RaftStore.Snapshot and fsmSnapshot
  unfoldable pub snapshot : Store env → Map Text
  snapshot s = clone_map s.kv

  module _ (sink : Sink) where
    -- the inner function of Persist
    unfoldable pub write_and_close : Text → sink.State → Option Text × sink.State
    write_and_close content s =
        let (e, s') = sink.write content s in
        elim e [ some e' ↦ (some e', s') | none ↦ sink.close s' ]

    -- fsmSnapshot.Persist
    unfoldable pub persist : Map Text → sink.State → Option Text × sink.State
    persist store s =
        let (e, s') = write_and_close (codecs.text_map.encode store) s in
        elim e [ none ↦ (none, s') | some e' ↦ (some e', (sink.cancel s').1) ]

  -- RaftStore.Restore, given what Decode leaves
  unfoldable pub restore : Text → Store env → Option Text × Store env
  restore content s =
      let (o, e) = codecs.text_map.decode_first content in
      elim e [ some e' ↦ (some e', s) | none ↦ (none, record s { kv = o }) ]
