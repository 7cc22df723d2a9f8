-- ===== src/Args/Fixing.antt =====
-- `Arg` and how its missing fields are filled (arg.go): `fixAddr`, `parseFlagRaftNodeID`,
-- `parseFlagRaftDir`, `parseBootstrap`, `Fix` and `ConvertToZeroHost`. A panic is `none`.
use hraftd.Common.{
  ◌+◌, ◌-◌, Bool, true, ◌&&◌, not, Option, none, some, List, [], ◌∷◌, ◌++◌, if◌then◌else◌,
}
use hraftd.Common.Int.{pos, ◌+ℤ◌, ◌-ℤ◌, ltb_ℤ}
use hraftd.Common.Text.{Text, lit, ◌==◌, split}
use hraftd.Common.Result.{Result, ok, err, ◌>>=?◌}
use hraftd.Address.{
  NodeId, colon, comma, split_host_port, host_of, port_of, host_port, choose, empty_then, fix,
}
use hraftd.Args.{Resolver, is_local_host, fix_addr_host}
use hraftd.Args.Numbers.{atoi, show_int}

-- Arg, without its interceptor, dealers and logger
pub record Arg : Type 0 where
  pub bootstrap : Bool
  pub in_mem : Bool
  pub raft_addr : Text
  pub raft_adv : Text
  pub raft_node_dir : Text
  pub node_id : NodeId
  pub http_addr : Text
  pub http_adv : Text
  pub join_addrs : Text
  pub iface_name : Text
  pub join_addr_slice : List Text
  pub host_ip : Text

-- What the machine tells: names, the IP of an interface ("" where there is none), the home of the
-- user, and filepath.Join.
pub record Machine : Type 0 where
  pub net : Resolver
  pub main_ip : Text → Text
  pub home_dir : Option Text
  pub join_path : List Text → Text

abbrev pub base_path : Option Text → Text
base_path none = lit "./"
base_path (some home) = home

abbrev with_host : Text → Result (Text × Text) → Option Text
with_host host_ip (err e) = none
with_host host_ip (ok (h, p)) = some (host_port (empty_then h host_ip) p)

abbrev and_then : Option Text → Option (List Text) → Option (List Text)
and_then none rest = none
and_then (some addr) none = none
and_then (some addr) (some addrs) = some (addr ∷ addrs)

-- the loop of parseBootstrap
unfoldable pub join_slice : Text → List Text → Option (List Text)
join_slice host_ip [] = some []
join_slice host_ip (addr ∷ addrs) =
    let rest = join_slice host_ip addrs in
    if addr == [] then rest else and_then (with_host host_ip (split_host_port addr)) rest

module _ (m : Machine) where
  abbrev seen_host : Arg → Text → Text
  seen_host a host = choose (is_local_host m.net a.host_ip host) a.host_ip host

  -- fixAddr where there is an HTTP address and no raft address, or the other way round
  unfoldable pub fix_from_http : Arg → Result (Text × Text) → Option Arg
  fix_from_http a (err e) = none
  fix_from_http a (ok (host, port)) =
      if ltb_ℤ (pos (35565 - 1000)) (atoi port)
      then none
      else some (record a {
        http_addr = host_port (seen_host a host) (show_int (atoi port));
        raft_addr = host_port (seen_host a host) (show_int (atoi port +ℤ pos 1000));
      })

  unfoldable pub fix_from_raft : Arg → Result (Text × Text) → Option Arg
  fix_from_raft a (err e) = none
  fix_from_raft a (ok (host, port)) =
      if ltb_ℤ (atoi port) (pos (1024 + 1000))
      then none
      else some (record a {
        http_addr = host_port (seen_host a host) (show_int (atoi port -ℤ pos 1000));
        raft_addr = host_port (seen_host a host) (show_int (atoi port));
      })

  unfoldable pub fix_both : Arg → Option Arg
  fix_both a = fix_addr_host m.net a.host_ip a.raft_addr >>=? λ raft.
      fix_addr_host m.net a.host_ip a.http_addr >>=? λ http.
      some (record a { raft_addr = raft; http_addr = http })

  -- Arg.fixAddr
  unfoldable pub fix_addr : Arg → Option Arg
  fix_addr a =
      if a.raft_addr == [] && a.http_addr == []
      then some (record a {
        raft_addr = a.host_ip ++ lit ":12000";
        http_addr = a.host_ip ++ lit ":11000";
      })
      else if a.raft_addr == []
      then fix_from_http a (split_host_port a.http_addr)
      else if a.http_addr == []
      then fix_from_raft a (split_host_port a.raft_addr)
      else fix_both a

  -- Arg.parseFlagRaftNodeID
  unfoldable pub parse_flag_raft_node_id : Arg → Option Arg
  parse_flag_raft_node_id a =
      fix a.host_ip (a.http_addr ++ comma ∷ a.raft_addr) >>=? λ id. some (record a { node_id = id })

  -- Arg.parseFlagRaftDir
  unfoldable pub parse_flag_raft_dir : Arg → Arg
  parse_flag_raft_dir a = if not (a.raft_node_dir == []) then a else record a {
    raft_node_dir = m.join_path (base_path m.home_dir ∷ lit ".hraftd" ∷ a.node_id ∷ []);
  }

  -- parseBootstrap behind the loop
  unfoldable pub boots : Arg → List Text → Bool
  boots a [] = true
  boots a (first ∷ addrs) =
      if first == a.http_addr
      then true
      else if not (port_of first == port_of a.http_addr)
      then a.bootstrap
      else is_local_host m.net a.host_ip (host_of first)

  -- Arg.parseBootstrap
  unfoldable pub parse_bootstrap : Arg → Option Arg
  parse_bootstrap a = join_slice a.host_ip (split comma a.join_addrs) >>=? λ addrs.
      some (record a { join_addr_slice = addrs; bootstrap = boots a addrs })

  -- Arg.Fix
  unfoldable pub fix_arg : Arg → Option Arg
  fix_arg a = fix_addr (record a { host_ip = m.main_ip a.iface_name }) >>=? λ a1.
      parse_flag_raft_node_id a1 >>=? λ a2. parse_bootstrap (parse_flag_raft_dir a2)

  -- Arg.ConvertToZeroHost
  unfoldable pub convert_to_zero_host : Arg → Text → Text
  convert_to_zero_host a addr =
      if is_local_host m.net a.host_ip (host_of addr) then colon ∷ port_of addr else addr
