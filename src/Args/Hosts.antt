-- ===== src/Args/Hosts.antt =====
-- `fixAddrHost` on its own results.
use hraftd.Common.{
  ◌≡◌, refl, sym, ap, ◌∙◌, true, false, some, none, [], ◌∷◌, ◌++◌, arith, Bool-cases, inl, inr,
  if◌then◌else◌,
}
use hraftd.Common.Text.{Text, eq_refl}
use hraftd.Address.{colon, contains, host_port, choose}
use hraftd.Address.Split.{
  IsPlain, split_host_port-host_port, split_host_port-bracketed, split_host_port-colon_host,
}
use hraftd.Args.{Resolver, parse_ips, any_local, is_local_host, fixed_pair, fix_addr_host}

module _ (net : Resolver) (host_ip : Text) where
  -- the host that the node is known by
  abbrev pub seen : Text → Text
  seen host = choose (is_local_host net host_ip host) host_ip host

  fix_addr_host-pair :
      {host port : Text}
      → IsPlain host
      → IsPlain port
      → fix_addr_host net host_ip (host_port host port) ≡ some (host_port (seen host) port)
  unfolding fix_addr_host fixed_pair
  fix_addr_host-pair {host} {port} h p = rw (split_host_port-host_port host port h p) refl

  own_host : net.parse_ip host_ip ≡ true → is_local_host net host_ip host_ip ≡ true
  unfolding is_local_host parse_ips any_local
  own_host h = rw h (ground (arith, eq_refl host_ip))

  seen-cases :
      (P : Text → Type 0) (host : Text)
      → (is_local_host net host_ip host ≡ true → P host_ip)
      → (is_local_host net host_ip host ≡ false → P host)
      → P (seen host)
  seen-cases P host f g =
      unfold choose in
      elim (Bool-cases (is_local_host net host_ip host)) [
        | inl local ↦ rw local (f local)
        | inr far ↦ rw far (g far)
      ]

  seen_again : net.parse_ip host_ip ≡ true → (host : Text) → seen (seen host) ≡ seen host
  seen_again h host =
      unfold choose in
      elim (Bool-cases (is_local_host net host_ip host)) [
        | inl local ↦ rw local (rw (own_host h) refl)
        | inr far ↦ rw far (rw far refl)
      ]

  -- A plain host and port are fixed to the node's own IP if the host is local, and else to the host,
  -- with the port, and fixing the result once more changes nothing. The node's IP parses as one.
  pub fix_addr_host-again :
      {host port : Text}
      → net.parse_ip host_ip ≡ true
      → IsPlain host_ip
      → IsPlain host
      → IsPlain port
      → (fix_addr_host net host_ip (host_port host port)
          ≡ some (host_port (if is_local_host net host_ip host then host_ip else host) port))
        × (fix_addr_host net host_ip
              (host_port (if is_local_host net host_ip host then host_ip else host) port)
            ≡ fix_addr_host net host_ip (host_port host port))
  unfolding choose
  fix_addr_host-again {host} {port} ip own h p =
      let plain : IsPlain (seen host) = seen-cases IsPlain host (λ l. own) (λ f. h) in
      (
        fix_addr_host-pair h p,
        fix_addr_host-pair plain p
            ∙ ap (λ x. some (host_port x port)) (seen_again ip host)
            ∙ sym (fix_addr_host-pair h p),
      )

  -- The address of a host with a colon in it, as an IPv6 address has, loses its brackets where the host
  -- is not local, and the result is no address: fixing it once more panics.
  pub fix_addr_host-bracketed :
      (host port : Text)
      → contains colon host ≡ true
      → contains b'[' host ≡ false
      → contains b']' host ≡ false
      → IsPlain port
      → is_local_host net host_ip host ≡ false
      → (fix_addr_host net host_ip (host_port (b'[' ∷ (host ++ b']' ∷ [])) port)
          ≡ some (host_port host port))
        × (fix_addr_host net host_ip (host_port host port) ≡ none)
  unfolding fix_addr_host fixed_pair choose
  fix_addr_host-bracketed host port c o k p far = (
    rw (split_host_port-bracketed host port o k p) (rw far refl),
    rw (split_host_port-colon_host host port c o p) refl,
  )
