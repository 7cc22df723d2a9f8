-- ===== src/Lib.antt =====
-- hraftd: a key-value store replicated by raft, with an HTTP service in front of it (package
-- hraftd, in Go). A node keeps a map of texts. A change is a command, handed by the leader to
-- the raft library, which calls `Apply` with it on every node. Nodes join and leave the raft
-- configuration over HTTP, and the cluster spreads jobs and items over its nodes.
--
-- Which file models which part:
-- - Common: lists, texts (`Text`, the bytes of a Go string), maps (association lists), signed
--   integers, results with an error; Utf8: which texts are UTF-8.
-- - Address (arg.go, util.go, const.go): `NodeID`, `BindAddr`, over `net.SplitHostPort`.
-- - Model (model.go): peers, clusters, join requests, commands.
-- - Distributor (distribute.go): items spread over the peers. A count is an integer, as in the
--   source, since it falls below 0 where many items stick to one peer. Reflected: its checks of
--   types. Counts, Complete, Sticky, Given, Stays, Balance and Levels are proofs.
-- - Dealers (job.go, logdealer.go, `Arg.Intercept` of arg.go): functions registered under a
--   name.
-- - World: what the program uses and does not implement, as records of operations with their
--   laws. JSON gives back what was encoded if its texts are UTF-8; of other texts nothing is
--   assumed.
-- - Env: what a running node holds of its start. Args (arg.go): the command line. Flags: the
--   names of the flags, `DefineFlags` and `CreateArg`. Fixing: `Arg.Fix` and its steps; a panic
--   is `none`. Numbers: `strconv.Atoi` and "%d". Hosts, Ports, Bootstraps, Defaults are proofs.
-- - Logger (logger.go, stdlog.go, logrus.go, hclogLogger of store.go): levels and loggers.
--   Decimal: `itoa` on its buffer of 20 bytes. Lines: the lines of `StdLogger`, with the proofs
--   in its children. Inferred: `stdlogAdapter`. Hclog: raft's logger. Adapted: logrus.
--   Standard: the logger that prints to the console.
-- - Remote (http.go, arg.go, store.go): requests to other nodes; joining a leader. Kept is
--   proofs.
-- - Jobs (peerjob.go): `DistributeJob`; Served is the proof that it meets the peer's dealer.
-- - Store (store.go): the state machine behind raft and its snapshots (State, Machine),
--   peers.json (PeersFile), the cluster's membership (Membership), what a node knows of it
--   (Leader), the loops that wait (Waiting), on a list of what their `select` finds, and `Open`
--   (Opening). A method takes the state that it reads and returns the one that it leaves.
--   `Apply` and `Set` take the time as an argument, in nanoseconds. The other files are proofs:
--   Fsm, Replicas, Keeps, Snapshots of the state machine; Led, Walks, Walking, Joined, Members,
--   Clusters of the membership; Waits of the loops; Opened of `Open`; Recovered of peers.json.
--   Interface (storei.go) is what the service has of its store.
-- - Http (net/http's requests and headers, proxy.go): requests, the reverse proxy's director, and
--   the dialer of its transport (Dialer).
-- - Util (util.go): what reads a body, and what prints values; Quotes is proofs.
-- - Service (service.go, service_raft.go, service_key.go, job.go): a handler takes the response
--   so far, a request and the node's surroundings, and returns the response and the surroundings
--   that it leaves. Answers: responses and the checks of the method. Forward: forwarding to the
--   leader. Keys, Rafts: the handlers. Routes: `ServeHTTP`. Once, Forwarded, Posts, Joins,
--   Saved, Shown are proofs.
-- - Ticker (ticker.go): the goroutine as a step relation; Rounds is proofs.
-- - Start (service.go, service_raft.go): `Create`, `StartAll`, `StartRaft` with the loop of the
--   goroutine that joins, `GoStartHTTP`, `Close` and `listenLeaderCh`; Seen, Retry, Returns and
--   Channel are proofs, Channel with the reader of LeaderCh going on at its own pace.
-- - Replication: several nodes that replicate one log, each with a store of Store.Machine, as a
--   relation of the states that can be reached: entries are committed, and applied by each node
--   at the time that its own clock shows, which only goes on; snapshots are taken, persisted, installed at other nodes, and restored when a
--   node starts again. An entry is committed with the mark whether the nodes that apply it find
--   it in time, so that the states reached are those of nodes whose clocks decide this alike;
--   and the texts of its command are UTF-8. What raft does between the nodes is its documented contract, and no part of
--   this repository. Replay says what the entries mean; Written, Invariant, Reads, Progress,
--   Served and Deleted are proofs, up to a POST or a DELETE on the leader and a GET on any node.
-- - Demo (cmd/hraftd/main.go): the demonstration program: Main is its `main`, with the goroutine
--   of `leaderChanging` on what comes through LeaderCh until StartAll returns, and the parent its
--   ticker and its jobs. Leading, Items, Answering, Running, Entries, Assigned and Distributed
--   are proofs.
-- - Tests: tests, and the theorems at concrete inputs.
--
-- An error is its message. A panic is `none`, and `panicked` in a handler. Each loop runs over a
-- list or a number of rounds, and a waiting loop over the ticks and timeouts that it is given.
-- The loop of `itoa` runs over the 20 bytes of its buffer, which is enough for a number below
-- 10^19 and a width up to 20; the loop that joins runs over its attempts, and ends with the
-- first that succeeds. The lock of the store is not modelled: one operation is one step, and
-- what happens in the node's surroundings between two calls of one operation is left out. Log
-- lines are left out, and so are values that are only logged.
--
-- Not modelled: `WaitInterrupt` and the content types of util.go; the goroutine that serves HTTP,
-- which is net/http's; the constants of raft's configuration.
pub mod Common
pub mod Address
pub mod Http
pub mod Model
pub mod Distributor
pub mod World
pub mod Dealers
pub mod Args
pub mod Env
pub mod Logger
pub mod Remote
pub mod Jobs
pub mod Demo
pub mod Start
pub mod Service
pub mod Util
pub mod Store
pub mod Replication
pub mod Ticker
pub mod Tests
