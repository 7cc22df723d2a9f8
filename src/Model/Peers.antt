-- ===== src/Model/Peers.antt =====
-- `ActivePeers` selects the leader and the followers of a cluster.
use hraftd.Common.{◌≡◌, ◌⊎◌, ◌↔◌, true, arith}
use hraftd.Common.Text.{eq_iff}
use hraftd.Model.{Peer, is_active, state_leader, state_follower}

-- A peer is active exactly when its state is "Leader" or "Follower".
pub is_active_iff :
    (p : Peer) → (is_active p ≡ true) ↔ ((p.state ≡ state_leader) ⊎ (p.state ≡ state_follower))
unfolding is_active
is_active_iff p = ground (arith, eq_iff p.state state_leader, eq_iff p.state state_follower)
