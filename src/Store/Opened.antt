-- ===== src/Store/Opened.antt =====
-- When an opened store has bootstrapped its cluster.
use hraftd.Common.{
  ℕ, ◌≡◌, refl, sym, ap, ◌∙◌, Bool, true, false, not, ◌&&◌, Option, none, some, List, [], ◌∷◌, ◌++◌,
  if◌then◌else◌, Bool-cases, inl, inr, append-nil,
}
use hraftd.Common.Text.{Text, lit}
use hraftd.Common.Result.{Result, ok, err, Result-cases}
use hraftd.Args.Fixing.{Arg}
use hraftd.World.{Server, World}
use hraftd.Env.{Env}
use hraftd.Remote.Kept.{try_join_leader-kept}
use hraftd.Store.PeersFile.{read_peers_json, recover_join}
use hraftd.Store.Opening.{
  Opening, file_stores, create_stores, transport_at, create_transport, alone_at, open_started,
  open_transport, open_stores, peer_file_exits, open_store,
}

-- The configurations that a cluster was bootstrapped with are noted by `bootstrap_cluster` and by
-- nothing else that Open calls.
pub record IsNoted {w : World} (o : Opening w) (noted : w.State → List (List Server)) : Type 0 where
  pub of_mkdir : (p : Text) (s : w.State) → noted (o.mkdir_all p s) ≡ noted s
  pub of_inmem : (s : w.State) → noted (o.inmem_stores s).1 ≡ noted s
  pub of_bolt : (p : Text) (s : w.State) → noted (o.new_bolt_store p s).1 ≡ noted s
  pub of_snapshots :
      (p : Text) (n : ℕ) (s : w.State) → noted (o.new_file_snapshot_store p n s).1 ≡ noted s
  pub of_resolve : (p : Text) (s : w.State) → noted (o.resolve_tcp_addr p s).1 ≡ noted s
  pub of_transport :
      (p : Text) (addr : o.TcpAddr) (s : w.State) → noted (o.new_tcp_transport p addr s).1 ≡ noted s
  pub of_raft :
      (id : Text) (stores : o.Stores) (t : o.Transport) (s : w.State)
      → noted (o.new_raft id stores t s).1 ≡ noted s
  pub of_bootstrap :
      (c : List Server) (s : w.State) → noted (o.bootstrap_cluster c s) ≡ noted s ++ c ∷ []
  pub of_get : (url : Text) (s : w.State) → noted (w.http_get url s).1 ≡ noted s
  pub of_post : (url body : Text) (s : w.State) → noted (w.http_post url body s).1 ≡ noted s

and_false : (b : Bool) → (b && false) ≡ false
and_false true = refl
and_false false = refl

module _ (env : Env) (o : Opening env.world) {noted : env.world.State → List (List Server)}
    (laws : IsNoted o noted) where
  open env use {world}

  recover_join-noted : (s : world.State) → noted (recover_join env s).1 ≡ noted s
  unfolding recover_join
  recover_join-noted s = elim (Result-cases (read_peers_json env s)) [
    | inl (servers, h) ↦
        rw (h, recover_join) (try_join_leader-kept env noted laws.of_get laws.of_post servers s)
    | inr (e, h) ↦ rw (h, recover_join) refl
  ]

  module _ (a : Arg) where
    file_stores-noted :
        (r : Result o.LogStore) (s : world.State) → noted (file_stores env o a (r, s)).1 ≡ noted s
    unfolding file_stores
    file_stores-noted (err e) s = refl
    file_stores-noted (ok db) s = laws.of_snapshots _ _ s

    create_stores-noted : (s : world.State) → noted (create_stores env o a s).1 ≡ noted s
    unfolding create_stores
    create_stores-noted s = elim (Bool-cases a.in_mem) [
      | inl h ↦ rw h (laws.of_inmem s)
      | inr h ↦ simp h (file_stores-noted (o.new_bolt_store _ s).0 _ ∙ laws.of_bolt _ s)
    ]

    transport_at-noted :
        (r : Result o.TcpAddr) (s : world.State) → noted (transport_at env o a (r, s)).1 ≡ noted s
    unfolding transport_at
    transport_at-noted (err e) s = refl
    transport_at-noted (ok addr) s = laws.of_transport _ addr s

    create_transport-noted : (s : world.State) → noted (create_transport env o a s).1 ≡ noted s
    unfolding create_transport
    create_transport-noted s = transport_at-noted _ _ ∙ laws.of_resolve _ s

    abbrev succeeds : Option Text → Bool
    succeeds none = true
    succeeds (some e) = false

    -- That `Open` has added to what was noted: the configuration of the node alone, at some address,
    -- where it succeeds, is to bootstrap and there is no peers.json, and nothing else.
    abbrev pub Notes : Bool → List (List Server) → Option Text × world.State → Type 0
    Notes exits before (e, s') =
        (address : Text) × (noted s'
          ≡ before
            ++ (if succeeds e && a.bootstrap && not exits
                then alone_at env o a address ∷ []
                else []))

    failed-Notes :
        (exits : Bool) (before : List (List Server)) (e : Text) (s : world.State)
        → noted s ≡ before
        → Notes exits before (some e, s)
    failed-Notes exits before e s h = ([], h ∙ sym (append-nil before))

    open_started-Notes :
        (exits : Bool) (t : o.Transport) (e : Option Text) (before : List (List Server))
        (s : world.State)
        → noted s ≡ before
        → Notes exits before (open_started env o a exits t (e, s))
    unfolding open_started
    open_started-Notes exits t (some e) before s h =
        failed-Notes exits before (lit "new raft: " ++ e) s h
    open_started-Notes true t none before s h = (
      [],
      rw (and_false a.bootstrap, and_false) (recover_join-noted s ∙ h ∙ sym (append-nil before)),
    )
    open_started-Notes false t none before s h = (
      o.local_addr t,
      elim (Bool-cases a.bootstrap) [
        | inl starts ↦
            simp starts
              (laws.of_bootstrap _ s ∙ ap (λ l. l ++ alone_at env o a (o.local_addr t) ∷ []) h)
        | inr joins ↦ simp joins (h ∙ sym (append-nil before))
      ],
    )

    open_transport-Notes :
        (exits : Bool) (stores : o.Stores) (r : Result o.Transport) (before : List (List Server))
        (s : world.State)
        → noted s ≡ before
        → Notes exits before (open_transport env o a exits stores (r, s))
    unfolding open_transport
    open_transport-Notes exits stores (err e) before s h = failed-Notes exits before e s h
    open_transport-Notes exits stores (ok t) before s h =
        open_started-Notes exits t (o.new_raft a.node_id stores t s).0 before _
          (laws.of_raft _ stores t s ∙ h)

    open_stores-Notes :
        (exits : Bool) (r : Result o.Stores) (before : List (List Server)) (s : world.State)
        → noted s ≡ before
        → Notes exits before (open_stores env o a exits (r, s))
    unfolding open_stores
    open_stores-Notes exits (err e) before s h = failed-Notes exits before e s h
    open_stores-Notes exits (ok stores) before s h =
        open_transport-Notes exits stores (create_transport env o a s).0 before _
          (create_transport-noted s ∙ h)

    -- Where raft's bootstrapping is all that is noted of the calls, `Open` bootstraps the cluster at
    -- most once, with the node alone in it, and exactly where it succeeds, the node is to bootstrap,
    -- and it either keeps its log in memory or has no peers.json in its directory.
    pub open_store-Notes :
        (s : world.State)
        → Notes
            (peer_file_exits env o a (o.mkdir_all a.raft_node_dir s))
            (noted s)
            (open_store env o a s)
    unfolding open_store
    open_store-Notes s =
        let s' = o.mkdir_all a.raft_node_dir s in
        open_stores-Notes (peer_file_exits env o a s') (create_stores env o a s').0 (noted s) _
          (create_stores-noted s' ∙ laws.of_mkdir _ s)
