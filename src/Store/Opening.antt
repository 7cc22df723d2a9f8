-- ===== src/Store/Opening.antt =====
-- The opening of the store (store.go): `Open`, `createStores` and `createTransport`, and `PathExists`
-- of util.go. The file system and the raft library's constructors are parameters. The fields of
-- raft's configuration but the local ID are constants and left out.
use hraftd.Common.{ℕ, Bool, true, not, ◌&&◌, Option, none, some, List, [], ◌∷◌, ◌++◌, if◌then◌else◌}
use hraftd.Common.Text.{Text, lit}
use hraftd.Common.Result.{Result, ok, err}
use hraftd.Args.Fixing.{Arg}
use hraftd.World.{Server, voter, World}
use hraftd.Env.{Env}
use hraftd.Store.PeersFile.{recover_join}

-- What Open calls, on the node's surroundings: `lstat` says of an error whether it is that there is
-- no such file; `Stores` are a log store, a stable store and a snapshot store.
pub record Opening (w : World) : Type 1 where
  pub Stores : Type 0
  pub LogStore : Type 0
  pub SnapshotStore : Type 0
  pub TcpAddr : Type 0
  pub Transport : Type 0
  pub join_path : List Text → Text
  pub mkdir_all : Text → w.State → w.State
  pub lstat : Text → w.State → Option Bool
  pub inmem_stores : w.State → Stores × w.State
  pub new_bolt_store : Text → w.State → Result LogStore × w.State
  pub new_file_snapshot_store : Text → ℕ → w.State → Result SnapshotStore × w.State
  pub on_disk : LogStore → SnapshotStore → Stores
  pub resolve_tcp_addr : Text → w.State → Result TcpAddr × w.State
  pub new_tcp_transport : Text → TcpAddr → w.State → Result Transport × w.State
  pub local_addr : Transport → Text
  pub new_raft : Text → Stores → Transport → w.State → Option Text × w.State
  pub bootstrap_cluster : List Server → w.State → w.State

abbrev retain_snapshot_count : ℕ
retain_snapshot_count = 2

module _ (env : Env) (o : Opening env.world) (a : Arg) where
  open env use {world}

  -- PathExists
  unfoldable pub path_exists : Text → world.State → Bool
  path_exists p s = elim (o.lstat p s) [ none ↦ true | some not_exist ↦ not not_exist ]

  -- createStores, its second half
  unfoldable pub file_stores : Result o.LogStore × world.State → Result o.Stores × world.State
  file_stores (err e, s) = (err (lit "new bolt store: " ++ e), s)
  file_stores (ok db, s) =
      let (ss, s') = o.new_file_snapshot_store a.raft_node_dir retain_snapshot_count s in
      (
        elim ss [
          | err e ↦ err (lit "file snapshot store: " ++ e)
          | ok snapshots ↦ ok (o.on_disk db snapshots)
        ],
        s',
      )

  -- RaftStore.createStores
  unfoldable pub create_stores : world.State → Result o.Stores × world.State
  create_stores s =
      if a.in_mem
      then (let (stores, s') = o.inmem_stores s in (ok stores, s'))
      else file_stores (o.new_bolt_store (o.join_path (a.raft_node_dir ∷ lit "raft.db" ∷ [])) s)

  -- createTransport, once the address is resolved
  unfoldable pub transport_at : Result o.TcpAddr × world.State → Result o.Transport × world.State
  transport_at (err e, s) = (err e, s)
  transport_at (ok addr, s) = o.new_tcp_transport a.raft_addr addr s

  -- RaftStore.createTransport
  unfoldable pub create_transport : world.State → Result o.Transport × world.State
  create_transport s = transport_at (o.resolve_tcp_addr a.raft_addr s)

  -- the configuration that Open bootstraps with
  abbrev pub alone_at : Text → List Server
  alone_at address = record { suffrage = voter; id = a.node_id; address = address } ∷ []

  -- Open once raft has started, by whether there is a peers.json
  unfoldable pub open_started :
      Bool → o.Transport → Option Text × world.State → Option Text × world.State
  open_started exits t (some e, s) = (some (lit "new raft: " ++ e), s)
  open_started exits t (none, s) =
      let s' =
        if a.bootstrap && not exits then o.bootstrap_cluster (alone_at (o.local_addr t)) s else s in
      if exits then recover_join env s' else (none, s')

  -- Open with its stores and its transport
  unfoldable pub open_transport :
      Bool → o.Stores → Result o.Transport × world.State → Option Text × world.State
  open_transport exits stores (err e, s) = (some e, s)
  open_transport exits stores (ok t, s) = open_started exits t (o.new_raft a.node_id stores t s)

  unfoldable pub open_stores : Bool → Result o.Stores × world.State → Option Text × world.State
  open_stores exits (err e, s) = (some e, s)
  open_stores exits (ok stores, s) = open_transport exits stores (create_transport s)

  -- the peers.json of the directory, where the node keeps one
  unfoldable pub peer_file_exits : world.State → Bool
  peer_file_exits s =
      not a.in_mem && path_exists (o.join_path (a.raft_node_dir ∷ lit "peers.json" ∷ [])) s

  -- RaftStore.Open
  unfoldable pub open_store : world.State → Option Text × world.State
  open_store s =
      let s' = o.mkdir_all a.raft_node_dir s in open_stores (peer_file_exits s') (create_stores s')
