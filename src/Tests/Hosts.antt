-- ===== src/Tests/Hosts.antt =====
-- Addresses that a node is given, where names are resolved by nothing.
use hraftd.Common.{◌≡◌, refl, false, true}
use hraftd.Common.Text.{Text, lit, ◌==◌}
use hraftd.Common.Result.{err}
use hraftd.Address.{colon, contains}
use hraftd.Address.Split.{IsPlain}
use hraftd.Args.{Resolver, parse_ips, any_local, is_local_host}

abbrev no_names : Resolver
no_names = record { parse_ip = λ s. true; lookup_ip = λ s. err (lit "no such host") }

abbrev own_ip : Text
own_ip = lit "10.0.0.1"

hosts : Unit {0}
unfolding ◌==◌ contains parse_ips any_local is_local_host
hosts = tt

port-IsPlain : IsPlain (lit "11000")
unfolding hosts
port-IsPlain = record { no_colon = refl; no_open = refl; no_close = refl }

has_colon : contains colon (lit "fe80::2") ≡ true
unfolding hosts
has_colon = refl

no_bracket : (contains b'[' (lit "fe80::2") ≡ false) × (contains b']' (lit "fe80::2") ≡ false)
unfolding hosts
no_bracket = (refl, refl)

not_local : is_local_host no_names own_ip (lit "fe80::2") ≡ false
unfolding hosts
not_local = refl
