-- ===== src/Args/Flags.antt =====
-- The names of the command line's flags and the `Arg` that is read by them (arg.go): `FlagNames` and
-- its options, `createFlagNames`, `DefineFlags` and `CreateArg`. What fills a structure from its
-- tags, the flag set and viper are parameters. `MakeArg` leaves every field empty.
use hraftd.Common.{Bool, true, false, not, Option, some, List, [], ◌∷◌, if◌then◌else◌}
use hraftd.Common.Text.{Text, lit, ◌==◌}
use hraftd.Common.Result.{◌>>=?◌}
use hraftd.Args.Fixing.{Arg}

-- FlagNames
pub record FlagNames : Type 0 where
  pub rmem : Text
  pub haddr : Text
  pub hadv : Text
  pub raddr : Text
  pub radv : Text
  pub rdir : Text
  pub rjoin : Text
  pub iface : Text

abbrev pub no_names : FlagNames
no_names = record {
  rmem = [];
  haddr = [];
  hadv = [];
  raddr = [];
  radv = [];
  rdir = [];
  rjoin = [];
  iface = [];
}

-- the tags of FlagNames
abbrev pub default_names : FlagNames
default_names = record {
  rmem = lit "rmem";
  haddr = lit "haddr";
  hadv = lit "hadv";
  raddr = lit "raddr";
  radv = lit "radv";
  rdir = lit "rdir";
  rjoin = lit "rjoin";
  iface = lit "iface";
}

abbrev pub FlagOptionFn : Type 0
FlagOptionFn = FlagNames → FlagNames

-- Which flag an option names.
pub data Flag : Type 0 where
  flag_rmem flag_haddr flag_hadv flag_raddr flag_radv flag_rdir flag_rjoin flag_iface : Flag

-- FlagRmem, FlagHaddr and the other six
unfoldable pub flag_option : Flag → Text → FlagOptionFn
flag_option flag_rmem name f = record f { rmem = name }
flag_option flag_haddr name f = record f { haddr = name }
flag_option flag_hadv name f = record f { hadv = name }
flag_option flag_raddr name f = record f { raddr = name }
flag_option flag_radv name f = record f { radv = name }
flag_option flag_rdir name f = record f { rdir = name }
flag_option flag_rjoin name f = record f { rjoin = name }
flag_option flag_iface name f = record f { iface = name }

-- the loop of createFlagNames
unfoldable pub applied : List FlagOptionFn → FlagNames → FlagNames
applied [] f = f
applied (fn ∷ fns) f = applied fns (fn f)

-- createFlagNames; the library sets the defaults in place and may report an error, which is only
-- printed
unfoldable pub create_flag_names : (FlagNames → FlagNames) → List FlagOptionFn → FlagNames
create_flag_names set_defaults fns = applied fns (set_defaults no_names)

-- MakeArg
abbrev pub made_arg : Arg
made_arg = record {
  bootstrap = false;
  in_mem = false;
  raft_addr = [];
  raft_adv = [];
  raft_node_dir = [];
  node_id = [];
  http_addr = [];
  http_adv = [];
  join_addrs = [];
  iface_name = [];
  join_addr_slice = [];
  host_ip = [];
}

-- FlagProvider; the pointer that a flag is bound to is that of the flag's own field of `Arg`, and
-- `none` is the panic of a provider that refuses a name.
pub record FlagProvider : Type 1 where
  pub State : Type 0
  pub bool_var : Flag → Text → Bool → State → Option State
  pub string_var : Flag → Text → Text → State → Option State

module _ (p : FlagProvider) where
  -- boolVar
  unfoldable pub bool_var : Flag → Bool → Text → p.State → Option p.State
  bool_var ptr default_value name s =
      if not (name == []) then p.bool_var ptr name default_value s else some s

  -- strVar
  unfoldable pub str_var : Flag → Text → p.State → Option p.State
  str_var ptr name s = if not (name == []) then p.string_var ptr name [] s else some s

  -- DefineFlags: the flags that are defined; the Arg itself is still made_arg
  unfoldable pub define_flags :
      (FlagNames → FlagNames) → List FlagOptionFn → p.State → Option (p.State × Arg)
  define_flags set_defaults fns s =
      let f = create_flag_names set_defaults fns in
      bool_var flag_rmem true f.rmem s >>=? λ s1. str_var flag_haddr f.haddr s1 >>=? λ s2.
      str_var flag_hadv f.hadv s2 >>=? λ s3. str_var flag_raddr f.raddr s3 >>=? λ s4.
      str_var flag_radv f.radv s4 >>=? λ s5. str_var flag_rdir f.rdir s5 >>=? λ s6.
      str_var flag_rjoin f.rjoin s6 >>=? λ s7.
      str_var flag_iface f.iface s7 >>=? λ s8. some (s8, made_arg)

-- ViperProvider
pub record ViperProvider : Type 1 where
  pub State : Type 0
  pub set_default : Text → Bool → State → State
  pub get_bool : Text → State → Bool
  pub get_string : Text → State → Text

-- CreateArg
unfoldable pub create_arg :
    (p : ViperProvider) → (FlagNames → FlagNames) → List FlagOptionFn → p.State → p.State × Arg
create_arg p set_defaults fns s =
    let f = create_flag_names set_defaults fns in
    let s' = p.set_default f.rmem true s in
    (
      s',
      record made_arg {
        in_mem = p.get_bool f.rmem s';
        http_addr = p.get_string f.haddr s';
        http_adv = p.get_string f.hadv s';
        raft_addr = p.get_string f.raddr s';
        raft_adv = p.get_string f.radv s';
        raft_node_dir = p.get_string f.rdir s';
        join_addrs = p.get_string f.rjoin s';
        iface_name = p.get_string f.iface s';
      },
    )
