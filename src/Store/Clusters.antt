-- ===== src/Store/Clusters.antt =====
-- What `Cluster` reports (store.go).
use hraftd.Common.{
  ◌≡◌, ◌≢◌, inl, inr, refl, sym, ap, ◌∙◌, true, Option, none, List, [], ◌∷◌, ◌++◌, map, arith,
  append_assoc, append-nil, All, Bool-cases,
}
use hraftd.Common.Text.{Text, ◌==◌, eq_iff}
use hraftd.Common.Result.{ok}
use hraftd.Address.{NodeId, url_raft_state}
use hraftd.Model.{no_rsp, Peer, RaftCluster}
use hraftd.World.{Codec, Server, IsRaft}
use hraftd.Env.{Env}
use hraftd.Remote.Kept.{get_json-kept}
use hraftd.Remote.{no_cluster, get_json, get_node_state}
use hraftd.Store.Membership.{walk, walk_raft_servers}
use hraftd.Store.Walks.{walk-goes_on}
use hraftd.Store.Leader.{
  ask_state, or_lost, note_leader, note_current, ask_unknown, peer_of, see_server, cluster,
}

abbrev pub key_of : Server → Text × Text
key_of srv = (srv.id, srv.address)

abbrev pub key_of_peer : Peer → Text × Text
key_of_peer p = (p.id, p.address)

-- The state of the peer is known, if only to be "Lost".
abbrev pub HasState : Peer → Type 0
HasState p = p.state ≢ []

module _ (env : Env) where
  open env use {world}

  or_lost-HasState : (p : Peer) → HasState (or_lost env p)
  or_lost-HasState p = unfold or_lost in ground (arith, eq_iff p.state [])

  or_lost-key : (p : Peer) → key_of_peer (or_lost env p) ≡ key_of_peer p
  or_lost-key p = unfold or_lost in ground arith

  note_leader-keeps :
      (leader : Text) (p : Peer) (c : RaftCluster)
      → (key_of_peer (note_leader env leader (p, c)).0 ≡ key_of_peer p)
        × ((note_leader env leader (p, c)).1.servers ≡ c.servers)
  note_leader-keeps leader p c =
      unfold note_leader in
      elim (Bool-cases (leader == p.address)) [
        | inl h ↦ rw h (refl, refl)
        | inr h ↦ rw h (refl, refl)
      ]

  note_current-keeps :
      (s : world.State) (r : Peer × RaftCluster)
      → (key_of_peer (note_current env s r).0 ≡ key_of_peer r.0)
        × ((note_current env s r).1.servers ≡ r.1.servers)
  note_current-keeps s (p, c) =
      unfold note_current in
      elim (Bool-cases (env.node_id == p.id)) [
        | inl h ↦ rw h (refl, refl)
        | inr h ↦ rw h (refl, refl)
      ]

  module _ (raft : IsRaft world) where
    pub get_json-keeps :
        {A : Type 0} (codec : Codec A) (zero_value : A) (url : Text) (s : world.State)
        → world.configuration (get_json world codec zero_value url s).1 ≡ world.configuration s
    get_json-keeps = get_json-kept world world.configuration raft.asked

    get_node_state-keeps :
        (node : NodeId) (s : world.State)
        → world.configuration (get_node_state env node s).1 ≡ world.configuration s
    get_node_state-keeps node s =
        unfold get_node_state in get_json-keeps env.codecs.rsp no_rsp (url_raft_state node) s

    ask_state-keeps :
        (p : Peer) (s : world.State)
        → (key_of_peer (ask_state env p s).0 ≡ key_of_peer p)
          × (world.configuration (ask_state env p s).1 ≡ world.configuration s)
    ask_state-keeps p s =
        unfold ask_state in
        elim (Bool-cases (get_node_state env p.id s).0.success) [
          | inl h ↦ rw h (refl, get_node_state-keeps p.id s)
          | inr h ↦ rw h (refl, get_node_state-keeps p.id s)
        ]

    ask_unknown-keeps :
        (p : Peer) (s : world.State)
        → (key_of_peer (ask_unknown env p s).0 ≡ key_of_peer p)
          × (world.configuration (ask_unknown env p s).1 ≡ world.configuration s)
    ask_unknown-keeps p s =
        unfold ask_unknown in
        elim (Bool-cases (p.state == [])) [
          | inl h ↦ rw h (ask_state-keeps p s)
          | inr h ↦ rw h (refl, refl)
        ]

    -- A round of the walk adds the server.
    record Seen (leader : Text) (srv : Server) (c : RaftCluster) (s : world.State) : Type 0 where
      peer : Peer
      after : RaftCluster
      at : world.State
      goes_on : see_server env leader srv (c, s) ≡ (ok true, (after, at))
      adds : after.servers ≡ c.servers ++ peer ∷ []
      has_state : HasState peer
      has_key : key_of_peer peer ≡ key_of srv
      keeps : world.configuration at ≡ world.configuration s

    see : (leader : Text) (srv : Server) (c : RaftCluster) (s : world.State) → Seen leader srv c s
    see leader srv c s =
        let a = note_leader env leader (peer_of env srv, c) in
        let b = note_current env s a in
        let k = note_leader-keeps leader (peer_of env srv) c in
        let l = note_current-keeps s a in
        let m = ask_unknown-keeps b.0 s in
        let q = (ask_unknown env b.0 s).0 in
        record {
          peer = or_lost env q;
          after = record b.1 { servers = b.1.servers ++ or_lost env q ∷ [] };
          at = (ask_unknown env b.0 s).1;
          goes_on = (unfold see_server in refl);
          adds = ap (λ x. x ++ or_lost env q ∷ []) (l.1 ∙ k.1);
          has_state = or_lost-HasState q;
          has_key = or_lost-key q ∙ m.0 ∙ l.0 ∙ k.0;
          keeps = m.1;
        }

    -- What the walk has found of the servers `l`.
    record Found (l : List Server) (c : RaftCluster) (s : world.State)
        (r : Option Text × (RaftCluster × world.State)) : Type 0 where
      peers : List Peer
      no_error : r.0 ≡ none
      adds : r.1.0.servers ≡ c.servers ++ peers
      have_state : All HasState peers
      have_keys : map key_of_peer peers ≡ map key_of l
      keeps : world.configuration r.1.1 ≡ world.configuration s

    walk-Found :
        (leader : Text) (l : List Server) (c : RaftCluster) (s : world.State)
        → Found l c s (walk (see_server env leader) l (c, s))
    walk-Found leader [] c s =
        unfold walk in
        record {
          peers = [];
          no_error = refl;
          adds = sym (append-nil c.servers);
          have_state = tt;
          have_keys = refl;
          keeps = refl;
        }
    walk-Found leader (srv ∷ l) c s =
        let x = see leader srv c s in
        let f = walk-Found leader l x.after x.at in
        rw (walk-goes_on (see_server env leader) srv l (c, s) (x.after, x.at) x.goes_on) (record {
          peers = x.peer ∷ f.peers;
          no_error = f.no_error;
          adds =
              f.adds ∙ ap (λ y. y ++ f.peers) x.adds ∙ append_assoc c.servers (x.peer ∷ []) f.peers;
          have_state = (x.has_state, f.have_state);
          have_keys = λ i. x.has_key i ∷ f.have_keys i;
          keeps = f.keeps ∙ x.keeps;
        })

    -- If the configuration can be read, Cluster returns no error, and the servers of the configuration,
    -- in their order, under their IDs and addresses, each with a state that is not empty. The
    -- configuration stays as it is.
    pub cluster-servers :
        (s : world.State) (l : List Server)
        → world.configuration s ≡ ok l
        → ((cluster env s).0.1 ≡ none)
          × (map key_of_peer (cluster env s).0.0.servers ≡ map key_of l)
          × All HasState (cluster env s).0.0.servers
          × (world.configuration (cluster env s).1 ≡ world.configuration s)
    cluster-servers s l conf =
        let r = walk (see_server env (world.leader_addr s)) l (no_cluster, s) in
        let f = walk-Found (world.leader_addr s) l no_cluster s in
        let e : cluster env s ≡ ((r.1.0, r.0), r.1.1) =
          (unfold cluster walk_raft_servers in rw (conf, cluster, walk_raft_servers) refl) in
        let found : r.1.0.servers ≡ f.peers = f.adds in
        rw e (f.no_error, ap (map key_of_peer) found ∙ f.have_keys, rw found f.have_state, f.keeps)
