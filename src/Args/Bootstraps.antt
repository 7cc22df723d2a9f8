-- ===== src/Args/Bootstraps.antt =====
-- Which node starts the cluster: `parseBootstrap`.
use hraftd.Common.{
  ◌≡◌, ◌⊎◌, ◌↔◌, refl, ap, ◌∙◌, Bool, true, false, some, List, [], ◌∷◌, ◌++◌, map, All, arith,
  Bool-cases, inl, inr,
}
use hraftd.Common.Text.{Text, ◌==◌, eq_iff, Lacks, split, split-append, split-of-Lacks}
use hraftd.Common.Result.{◌>>=?◌}
use hraftd.Address.{comma, host_port, empty_then}
use hraftd.Address.Split.{IsPlain, split_host_port-host_port, host_of-host_port, port_of-host_port}
use hraftd.Address.Identity.{IsPart, Lacks-of_contains, no_comma-host_port}
use hraftd.Args.{is_local_host}
use hraftd.Args.Ports.{filled}
use hraftd.Args.Fixing.{Arg, Machine, join_slice, boots, parse_bootstrap}

-- A host and a port.
abbrev pub Pair : Type 0
Pair = Text × Text

abbrev pub IsPair : Pair → Type 0
IsPair (host, port) = IsPart host × IsPart port

-- The addresses, separated by commas.
unfoldable pub joined : List Pair → Text
joined [] = []
joined ((host, port) ∷ []) = host_port host port
joined ((host, port) ∷ p ∷ pairs) = host_port host port ++ comma ∷ joined (p ∷ pairs)

abbrev printed : Pair → Text
printed (host, port) = host_port host port

-- An address with the node's own IP where it names no host.
abbrev pub full : Text → Pair → Text
full host_ip (host, port) = host_port (empty_then host host_ip) port

no_comma : (p : Pair) → IsPair p → Lacks comma (printed p)
no_comma (host, port) (h, p) =
    Lacks-of_contains comma (host_port host port)
      (no_comma-host_port host port h.no_comma p.no_comma)

split-joined :
    (p : Pair) (pairs : List Pair)
    → All IsPair (p ∷ pairs)
    → split comma (joined (p ∷ pairs)) ≡ map printed (p ∷ pairs)
unfolding joined
split-joined (host, port) [] (h, _) = split-of-Lacks comma _ (no_comma (host, port) h)
split-joined (host, port) (q ∷ pairs) (h, hs) =
    split-append comma (host_port host port) (joined (q ∷ pairs)) (no_comma (host, port) h)
    ∙ ap (◌∷◌ (host_port host port)) (split-joined q pairs hs)

join_slice-printed :
    (host_ip : Text) (pairs : List Pair)
    → All IsPair pairs
    → join_slice host_ip (map printed pairs) ≡ some (map (full host_ip) pairs)
unfolding join_slice
join_slice-printed host_ip [] h = refl
join_slice-printed host_ip ((host, port) ∷ pairs) ((h, p), hs) =
    rw
      (
        filled host port,
        split_host_port-host_port host port h.is_plain p.is_plain,
        join_slice-printed host_ip pairs hs,
      )
      refl

join_slice-joined :
    (host_ip : Text) (pairs : List Pair)
    → All IsPair pairs
    → join_slice host_ip (split comma (joined pairs)) ≡ some (map (full host_ip) pairs)
join_slice-joined host_ip [] h = unfold join_slice joined split ◌==◌ in refl
join_slice-joined host_ip (p ∷ pairs) h =
    ap (join_slice host_ip) (split-joined p pairs h) ∙ join_slice-printed host_ip (p ∷ pairs) h

empty_then-IsPlain : (s t : Text) → IsPlain s → IsPlain t → IsPlain (empty_then s t)
unfolding empty_then
empty_then-IsPlain s t h k = elim (Bool-cases (s == [])) [ inl e ↦ rw e k | inr e ↦ rw e h ]

-- That a node, which other nodes reach at the host and the port, is to start the cluster: nobody is
-- to be joined, or the first to be joined is the node itself.
abbrev pub Starts : Machine → Text → Pair → List Pair → Type 0
Starts m host_ip own [] = Unit
Starts m host_ip (host, port) ((h, p) ∷ pairs) =
    (full host_ip (h, p) ≡ host_port host port)
    ⊎ ((p ≡ port) × (is_local_host m.net host_ip (empty_then h host_ip) ≡ true))

module _ (m : Machine) (a : Arg) {host port : Text} (hh : IsPlain host) (hp : IsPlain port)
    (own : a.http_addr ≡ host_port host port) (k : IsPlain a.host_ip)
    (fresh : a.bootstrap ≡ false) where
  boots-first :
      (h p : Text) (addrs : List Text)
      → IsPlain h
      → IsPlain p
      → (boots m a (host_port h p ∷ addrs) ≡ true) ↔ (
          (host_port h p ≡ host_port host port)
          ⊎ ((p ≡ port) × (is_local_host m.net a.host_ip h ≡ true)))
  unfolding boots
  boots-first h p addrs ph pp =
      rw (own, port_of-host_port ph pp, port_of-host_port hh hp, host_of-host_port ph pp, fresh)
        (ground (arith, eq_iff (host_port h p) (host_port host port), eq_iff p port))

  boots-pairs :
      (pairs : List Pair)
      → All IsPair pairs
      → (boots m a (map (full a.host_ip) pairs) ≡ true) ↔ Starts m a.host_ip (host, port) pairs
  unfolding boots
  boots-pairs [] h = (λ e. tt, λ e. refl)
  boots-pairs ((h, p) ∷ pairs) ((ph, pp), hs) =
      boots-first (empty_then h a.host_ip) p (map (full a.host_ip) pairs)
        (empty_then-IsPlain h a.host_ip ph.is_plain k) pp.is_plain

  -- Where the list to join names addresses of hosts and ports, parted by commas, `parse_bootstrap`
  -- does not panic: it keeps each of them in its place, with the node's own IP for an empty host,
  -- and has the node start the cluster exactly where the list is empty or its first address is the
  -- node's HTTP address, or has that one's port and a host that is local.
  pub parse_bootstrap-Starts :
      (pairs : List Pair)
      → All IsPair pairs
      → a.join_addrs ≡ joined pairs
      → (starts : Bool) × (parse_bootstrap m a
          ≡ some (record a { join_addr_slice = map (full a.host_ip) pairs; bootstrap = starts }))
        × ((starts ≡ true) ↔ Starts m a.host_ip (host, port) pairs)
  unfolding parse_bootstrap
  parse_bootstrap-Starts pairs h e = (
    boots m a (map (full a.host_ip) pairs),
    ap
        (λ r.
          r >>=? λ addrs. some (record a { join_addr_slice = addrs; bootstrap = boots m a addrs }))
        (ap (λ t. join_slice a.host_ip (split comma t)) e ∙ join_slice-joined a.host_ip pairs h),
    boots-pairs pairs h,
  )
