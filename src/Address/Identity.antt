-- ===== src/Address/Identity.antt =====
-- `NodeID`: an ID of the form "host:port,host:port" and its parts, and `NodeID.Fix`.
use hraftd.Common.{ℕ, ◌≡◌, false, none, some, [], ◌∷◌, ◌++◌, arith}
use hraftd.Common.Text.{Text, Lacks, split-append, split-of-Lacks}
use hraftd.Address.{colon, comma, contains, host_port, full_id, NodeId, http_addr, raft_addr, fix}
use hraftd.Address.Split.{IsPlain, port_of-host_port, contains-append, contains_cons}

-- A host or a port that can stand in a node ID: plain, and without the comma that parts the two.
pub record IsPart (s : Text) : Type 0 where
  pub is_plain : IsPlain s
  pub no_comma : contains comma s ≡ false

pub Lacks-of_contains : (c : ℕ) (s : Text) → contains c s ≡ false → Lacks c s
unfolding contains
Lacks-of_contains c [] h = tt
Lacks-of_contains c (b ∷ s) h = (ground arith, Lacks-of_contains c s (ground arith))

pub no_comma-host_port :
    (s t : Text)
    → contains comma s ≡ false
    → contains comma t ≡ false
    → contains comma (host_port s t) ≡ false
no_comma-host_port s t h k =
    rw (contains-append comma s (colon ∷ t), h, contains_cons comma colon t) k

module _ (a b : Text) (h : contains comma a ≡ false) where
  pub http_addr-pair : http_addr (a ++ comma ∷ b) ≡ a
  unfolding http_addr
  http_addr-pair = rw (split-append comma a b (Lacks-of_contains comma a h), http_addr)

  pub raft_addr-pair : contains comma b ≡ false → raft_addr (a ++ comma ∷ b) ≡ some b
  unfolding raft_addr
  raft_addr-pair k = rw (
    split-append comma a b (Lacks-of_contains comma a h),
    split-of-Lacks comma b (Lacks-of_contains comma b k),
    raft_addr,
  )

-- An ID without a comma has no Raft address: `NodeID.RaftAddr` indexes past the slice and panics.
pub raft_addr-panics : (r : NodeId) → contains comma r ≡ false → raft_addr r ≡ none
unfolding raft_addr
raft_addr-panics r h = rw (split-of-Lacks comma r (Lacks-of_contains comma r h), raft_addr)

-- So does `NodeID.Fix`, whatever the host.
pub fix-panics : (host : Text) (r : NodeId) → contains comma r ≡ false → fix host r ≡ none
unfolding fix
fix-panics host r h = rw (raft_addr-panics r h, fix)

module _ {h₁ p₁ h₂ p₂ : Text} (hh₁ : IsPart h₁) (hp₁ : IsPart p₁) (hh₂ : IsPart h₂)
    (hp₂ : IsPart p₂) where
  -- The two addresses of an ID are the ones that it was printed from.
  pub addrs-pair :
      (http_addr (host_port h₁ p₁ ++ comma ∷ host_port h₂ p₂) ≡ host_port h₁ p₁)
      × (raft_addr (host_port h₁ p₁ ++ comma ∷ host_port h₂ p₂) ≡ some (host_port h₂ p₂))
  addrs-pair =
      let c₁ = no_comma-host_port h₁ p₁ hh₁.no_comma hp₁.no_comma in
      let c₂ = no_comma-host_port h₂ p₂ hh₂.no_comma hp₂.no_comma in
      (http_addr-pair _ _ c₁, raft_addr-pair _ _ c₁ c₂)

  -- `NodeID.Fix` puts its host for both hosts and leaves both ports.
  pub fix-pair :
      (host : Text)
      → fix host (host_port h₁ p₁ ++ comma ∷ host_port h₂ p₂) ≡ some (full_id host p₁ p₂)
  unfolding fix
  fix-pair host = rw (
    addrs-pair.0,
    addrs-pair.1,
    fix,
    port_of-host_port hh₁.is_plain hp₁.is_plain,
    port_of-host_port hh₂.is_plain hp₂.is_plain,
  )
