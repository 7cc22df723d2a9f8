-- ===== src/Start/Seen.antt =====
-- What an attempt of `Arg.Join` (arg.go) that succeeds has done: `Join` and `checkJoined`.
use hraftd.Common.{
  ◌≡◌, refl, ap, Bool, true, false, none, some, List, [], ◌∷◌, ◌++◌, sym, ◌∙◌, arith, Bool-cases,
  Option-cases, inl, inr,
}
use hraftd.Common.Text.{Text}
use hraftd.Address.{bind_url_raft_join}
use hraftd.Model.{RaftCluster, Rsp, no_rsp}
use hraftd.World.{WithError}
use hraftd.Env.{Env}
use hraftd.Remote.{
  cluster_of, has_server, not_joined, post_json, check_joined, joined, join, join_first, arg_join,
}

module _ (env : Env) where
  open env use {world}

  abbrev request : Text
  request = env.codecs.join_request.encode (record { addr = env.raft_addr; node_id = env.node_id })

  -- That the attempt on these addresses, from `s` to `s'`, has joined the node: the addresses before one
  -- were tried in vain, the request to join that was then posted to this one was answered with success,
  -- and the node was answered behind that with a cluster which has it among its servers.
  pub record Seen (addrs : List Text) (s s' : world.State) : Type 0 where
    pub earlier : List Text
    pub addr : Text
    pub later : List Text
    pub rsp : Rsp
    pub between : world.State
    pub cluster : RaftCluster
    pub tried : addrs ≡ earlier ++ addr ∷ later
    pub in_vain : (join_first env earlier s).0 ≡ false
    pub posted :
        post_json world env.codecs.rsp no_rsp
          (bind_url_raft_join addr)
          request
          (join_first env earlier s).1
        ≡ ((rsp, none), between)
    pub success : rsp.success ≡ true
    pub asked : cluster_of env env.node_id between ≡ ((cluster, none), s')
    pub among : has_server env.node_id cluster.servers ≡ true

  check_joined-asked :
      (s : world.State)
      → (check_joined env env.node_id s).0 ≡ none
      → (c : RaftCluster) × (cluster_of env env.node_id s
          ≡ ((c, none), (check_joined env env.node_id s).1))
        × (has_server env.node_id c.servers ≡ true)
  unfolding check_joined
  check_joined-asked s h =
      let ((c, e), s') = cluster_of env env.node_id s in
      elim (Option-cases e) [
        | inr (why, k) ↦
            let refused : (check_joined env env.node_id s).0 ≡ some why =
              rw (k, check_joined) refl in
            ground (arith, refused)
        | inl k ↦ elim (Bool-cases (has_server env.node_id c.servers)) [
          | inl here ↦
              let left : (check_joined env env.node_id s).1 ≡ s' = rw (k, check_joined) refl in
              (c, ap (λ e. ((c, e), s')) k ∙ ap (λ t. ((c, none), t)) (sym left), here)
          | inr absent ↦
              let refused : (check_joined env env.node_id s).0 ≡ some (not_joined env env.node_id) =
                rw (k, check_joined) (rw absent refl) in
              ground (arith, refused)
        ]
      ]

  -- The join at an address that succeeds.
  join-Seen :
      (addr : Text) (addrs : List Text) (s : world.State)
      → (join env addr env.raft_addr env.node_id s).0 ≡ none
      → Seen (addr ∷ addrs) s (join env addr env.raft_addr env.node_id s).1
  unfolding join joined join_first
  join-Seen addr addrs s h =
      let posted = post_json world env.codecs.rsp no_rsp (bind_url_raft_join addr) request s in
      go posted refl h
    where
      go :
          (p : WithError Rsp × world.State)
          → post_json world env.codecs.rsp no_rsp (bind_url_raft_join addr) request s ≡ p
          → (joined env env.node_id p.0 p.1).0 ≡ none
          → Seen (addr ∷ addrs) s (joined env env.node_id p.0 p.1).1
      go ((rsp, some e), t) same h = cc
      go ((rsp, none), t) same h = elim (Bool-cases rsp.success) [
        | inr bad ↦ cc (rw bad at h)
        | inl good ↦
            let (c, asked, among) = check_joined-asked t (rw good at h) in
            rw good (record {
              earlier = [];
              addr = addr;
              later = addrs;
              rsp = rsp;
              between = t;
              cluster = c;
              tried = refl;
              in_vain = refl;
              posted = same;
              success = good;
              asked = asked;
              among = among;
            })
      ]

  join_first-here :
      (addr : Text) (addrs : List Text) (s : world.State)
      → (join env addr env.raft_addr env.node_id s).0 ≡ none
      → (join_first env (addr ∷ addrs) s).1 ≡ (join env addr env.raft_addr env.node_id s).1
  unfolding join_first
  join_first-here addr addrs s good = rw (good, join_first) refl

  join_first-later :
      (addr why : Text) (addrs : List Text) (s : world.State)
      → (join env addr env.raft_addr env.node_id s).0 ≡ some why
      → join_first env (addr ∷ addrs) s
        ≡ join_first env addrs (join env addr env.raft_addr env.node_id s).1
  unfolding join_first
  join_first-later addr why addrs s bad = rw (bad, join_first) refl

  -- An address that is tried in vain before.
  later-Seen :
      (addr why : Text) (addrs : List Text) (s s' : world.State)
      → (join env addr env.raft_addr env.node_id s).0 ≡ some why
      → Seen addrs (join env addr env.raft_addr env.node_id s).1 s'
      → Seen (addr ∷ addrs) s s'
  later-Seen addr why addrs s s' bad seen =
      let same = join_first-later addr why seen.earlier s bad in
      record {
        earlier = addr ∷ seen.earlier;
        addr = seen.addr;
        later = seen.later;
        rsp = seen.rsp;
        between = seen.between;
        cluster = seen.cluster;
        tried = ap (λ l. addr ∷ l) seen.tried;
        in_vain = ap (λ x. x.0) same ∙ seen.in_vain;
        posted =
            ap
              (λ x.
                post_json world env.codecs.rsp no_rsp (bind_url_raft_join seen.addr) request x.1)
              same
            ∙ seen.posted;
        success = seen.success;
        asked = seen.asked;
        among = seen.among;
      }

  join_first-Seen :
      (addrs : List Text) (s : world.State)
      → (join_first env addrs s).0 ≡ true
      → Seen addrs s (join_first env addrs s).1
  unfolding join_first
  join_first-Seen [] s h = cc
  join_first-Seen (addr ∷ addrs) s h =
      elim (Option-cases (join env addr env.raft_addr env.node_id s).0) [
        | inl good ↦ rw (join_first-here addr addrs s good) (join-Seen addr addrs s good)
        | inr (why, bad) ↦
            let same = join_first-later addr why addrs s bad in
            rw same (later-Seen addr why addrs s _ bad (join_first-Seen addrs _ (rw same at h)))
      ]

  arg_join-Seen :
      (join_addrs : Text) (addrs : List Text) (s : world.State)
      → (arg_join env false join_addrs addrs s).0 ≡ none
      → Seen addrs s (arg_join env false join_addrs addrs s).1
  unfolding arg_join
  arg_join-Seen join_addrs addrs s h = elim (Bool-cases (join_first env addrs s).0) [
    | inl done ↦ join_first-Seen addrs s done
    | inr failed ↦ ground arith
  ]

  pub joining :
      (join_addrs : Text) (addrs : List Text) (bootstrap : Bool) (s : world.State)
      → bootstrap ≡ false
      → (arg_join env bootstrap join_addrs addrs s).0 ≡ none
      → Seen addrs s (arg_join env bootstrap join_addrs addrs s).1
  joining join_addrs addrs true s joins h = ground arith
  joining join_addrs addrs false s joins h = arg_join-Seen join_addrs addrs s h
