-- ===== src/Store.antt =====
-- store.go: the replicated key-value store. Its state is the map and the node's surroundings; the
-- lock of `lockApplyOp` is not modelled, each operation here being one step. The definitions stand in
-- State, PeersFile, Machine, Membership, Leader and Opening, and the proofs in the other modules.
pub mod State
pub mod PeersFile
pub mod Machine
pub mod Membership
pub mod Leader
pub mod Waiting
pub mod Waits
pub mod Fsm
pub mod Replicas
pub mod Keeps
pub mod Snapshots
pub mod Walks
pub mod Walking
pub mod Joined
pub mod Members
pub mod Clusters
pub mod Opening
pub mod Opened
pub mod Recovered
pub mod Interface
pub mod Led
