-- ===== src/Args.antt =====
-- How `Arg` reads the addresses that it is given (arg.go): `fixAddrHost`, `isLocalHost` and `ParseIps`.
-- Parsing an IP and looking up a name are parameters.
pub mod Hosts
pub mod Numbers
pub mod Fixing
pub mod Ports
pub mod Flags
pub mod Bootstraps
pub mod Defaults
use hraftd.Common.{Bool, true, false, ◌||◌, Option, none, some, List, [], ◌∷◌, if◌then◌else◌}
use hraftd.Common.Text.{Text, lit, ◌==◌}
use hraftd.Common.Result.{Result, ok, err}
use hraftd.Address.{split_host_port, host_port, choose}
use hraftd.Model.{loopback}

-- net.ParseIP(s) != nil, and net.LookupIP with its addresses as texts
pub record Resolver : Type 0 where
  pub parse_ip : Text → Bool
  pub lookup_ip : Text → Result (List Text)

abbrev localhost : Text
localhost = lit "localhost"

module _ (net : Resolver) where
  -- ParseIps
  unfoldable pub parse_ips : Text → List Text
  parse_ips host =
      if net.parse_ip host
      then host ∷ []
      else elim (net.lookup_ip host) [ err e ↦ host ∷ [] | ok ips ↦ ips ]

  module _ (host_ip : Text) where
    -- the cases of isLocalHost
    abbrev is_local_ip : Text → Bool
    is_local_ip ip = ip == [] || ip == loopback || ip == localhost || ip == host_ip

    -- the loop of isLocalHost
    unfoldable pub any_local : List Text → Bool
    any_local [] = false
    any_local (ip ∷ ips) = if is_local_ip ip then true else any_local ips

    -- Arg.isLocalHost
    unfoldable pub is_local_host : Text → Bool
    is_local_host host = any_local (parse_ips host)

    -- what fixAddrHost does with the host and the port
    unfoldable pub fixed_pair : Result (Text × Text) → Option Text
    fixed_pair (err e) = none
    fixed_pair (ok (host, port)) = some (host_port (choose (is_local_host host) host_ip host) port)

    -- Arg.fixAddrHost; `none` is the panic on an address that is none
    unfoldable pub fix_addr_host : Text → Option Text
    fix_addr_host addr = fixed_pair (split_host_port addr)
