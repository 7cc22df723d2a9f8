-- ===== src/Args/Defaults.antt =====
-- A node whose flags are all left alone: `CreateArg` and then `Fix`.
use hraftd.Common.{◌≡◌, refl, ap, ◌∙◌, ◌≢◌, true, false, some, [], ◌∷◌}
use hraftd.Common.Text.{Text, lit, ◌==◌, ne_of_test, split}
use hraftd.Address.{contains, host_port, full_id}
use hraftd.Address.Identity.{IsPart, fix-pair}
use hraftd.Args.Fixing.{
  Arg, Machine, base_path, fix_addr, parse_flag_raft_node_id, parse_flag_raft_dir, join_slice,
  boots, parse_bootstrap, fix_arg,
}
use hraftd.Args.Flags.{
  FlagNames, ViperProvider, no_names, default_names, made_arg, applied, create_flag_names,
  create_arg,
}

abbrev http_port : Text
http_port = lit "11000"

abbrev raft_port : Text
raft_port = lit "12000"

-- The argument of a node that starts a cluster of its own, by its IP.
abbrev pub alone : Machine → Text → Arg
alone m ip = record made_arg {
  bootstrap = true;
  in_mem = true;
  host_ip = ip;
  http_addr = host_port ip http_port;
  raft_addr = host_port ip raft_port;
  node_id = full_id ip http_port raft_port;
  raft_node_dir =
      m.join_path (base_path m.home_dir ∷ lit ".hraftd" ∷ full_id ip http_port raft_port ∷ []);
}

-- The argument that `CreateArg` makes of no settings.
abbrev unset_arg : Arg
unset_arg = record made_arg { in_mem = true }

http_port-IsPart : IsPart http_port
unfolding contains
http_port-IsPart = record {
  is_plain = record { no_colon = refl; no_open = refl; no_close = refl };
  no_comma = refl;
}

raft_port-IsPart : IsPart raft_port
unfolding contains
raft_port-IsPart = record {
  is_plain = record { no_colon = refl; no_open = refl; no_close = refl };
  no_comma = refl;
}

create_arg-unset :
    (p : ViperProvider) (set_defaults : FlagNames → FlagNames) (s : p.State)
    → set_defaults no_names ≡ default_names
    → p.get_bool (lit "rmem") (p.set_default (lit "rmem") true s) ≡ true
    → ((key : Text) → key ≢ lit "rmem" → p.get_string key (p.set_default (lit "rmem") true s) ≡ [])
    → (create_arg p set_defaults [] s).1 ≡ unset_arg
unfolding create_arg create_flag_names applied ◌==◌
create_arg-unset p set_defaults s tags memory unset =
    let none_of : (key : Text)
        → (key == lit "rmem") ≡ false
        → p.get_string key (p.set_default (lit "rmem") true s) ≡ [] =
      λ key e. unset key (ne_of_test key (lit "rmem") e) in
    rw (tags, memory)
      (rw
        (
          none_of (lit "raddr") refl,
          none_of (lit "radv") refl,
          none_of (lit "rdir") refl,
          none_of (lit "haddr") refl,
          none_of (lit "hadv") refl,
          none_of (lit "rjoin") refl,
          none_of (lit "iface") refl,
        )
        refl)

module _ (m : Machine) where
  -- after the addresses and the ID
  abbrev named_arg : Text → Arg
  named_arg ip = record unset_arg {
    host_ip = ip;
    http_addr = host_port ip http_port;
    raft_addr = host_port ip raft_port;
    node_id = full_id ip http_port raft_port;
  }

  fix_addr-unset :
      (ip : Text)
      → fix_addr m (record unset_arg { host_ip = ip })
        ≡ some (record (named_arg ip) { node_id = [] })
  unfolding fix_addr ◌==◌
  fix_addr-unset ip = refl

  parse_flag_raft_node_id-unset :
      (ip : Text)
      → IsPart ip
      → parse_flag_raft_node_id m (record (named_arg ip) { node_id = [] }) ≡ some (named_arg ip)
  unfolding parse_flag_raft_node_id
  parse_flag_raft_node_id-unset ip h = rw (fix-pair h http_port-IsPart h raft_port-IsPart ip) refl

  parse_bootstrap-unset :
      (ip : Text) → parse_bootstrap m (parse_flag_raft_dir m (named_arg ip)) ≡ some (alone m ip)
  unfolding parse_flag_raft_dir parse_bootstrap join_slice split boots ◌==◌
  parse_bootstrap-unset ip = refl

  -- `Fix` makes of the argument of no settings that of a node alone on its IP.
  fix_arg-unset : IsPart (m.main_ip []) → fix_arg m unset_arg ≡ some (alone m (m.main_ip []))
  unfolding fix_arg
  fix_arg-unset h =
      let ip = m.main_ip [] in
      rw (fix_addr-unset ip, parse_flag_raft_node_id-unset ip h, parse_bootstrap-unset ip) refl

  -- Where the tags give the flags their names and viper has no text for any key but the default
  -- `true` of "rmem", `CreateArg` without options and then `Fix` succeed: a node that keeps its log
  -- in memory, starts a cluster with nobody to join, and stands on its own IP with port 11000 for
  -- HTTP and 12000 for raft, in its addresses and in its ID.
  pub fix_arg-defaults :
      (p : ViperProvider) (set_defaults : FlagNames → FlagNames) (s : p.State)
      → set_defaults no_names ≡ default_names
      → p.get_bool (lit "rmem") (p.set_default (lit "rmem") true s) ≡ true
      → ((key : Text)
          → key ≢ lit "rmem"
          → p.get_string key (p.set_default (lit "rmem") true s) ≡ [])
      → IsPart (m.main_ip [])
      → fix_arg m (create_arg p set_defaults [] s).1 ≡ some (alone m (m.main_ip []))
  fix_arg-defaults p set_defaults s tags memory unset h =
      ap (fix_arg m) (create_arg-unset p set_defaults s tags memory unset) ∙ fix_arg-unset h
