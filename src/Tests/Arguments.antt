-- ===== src/Tests/Arguments.antt =====
-- Command lines of nodes whose host is 10.0.0.1.
use hraftd.Common.{
  ◌≡◌, ◌↔◌, refl, Bool, true, false, Option, none, some, List, [], ◌∷◌, ◌++◌, map, arith,
  if◌then◌else◌,
}
use hraftd.Common.Text.{Text, lit, ◌==◌, split}
use hraftd.Common.Result.{err}
use hraftd.Address.{contains, cut_last, split_at, plain, host_port, empty_then, split_host_port}
use hraftd.Address.Identity.{IsPart}
use hraftd.Args.Numbers.{decimal}
use hraftd.Args.Fixing.{Arg, Machine, fix_addr, join_slice, boots, parse_bootstrap}
use hraftd.Args.Ports.{with_addrs, seen, fix_addr-ports}
use hraftd.Args.Flags.{ViperProvider, made_arg}
use hraftd.Args.Bootstraps.{Pair, joined, full, Starts, parse_bootstrap-Starts}

abbrev own_ip : Text
own_ip = lit "10.0.0.1"

-- A machine that resolves nothing, and joins paths by a slash.
abbrev joined_path : List Text → Text
joined_path [] = []
joined_path (p ∷ ps) = p ++ b'/' ∷ joined_path ps

abbrev machine : Machine
machine = record {
  net = record { parse_ip = λ s. true; lookup_ip = λ s. err (lit "no such host") };
  main_ip = λ iface. own_ip;
  home_dir = some (lit "/root");
  join_path = joined_path;
}

parts : Unit {0}
unfolding contains
parts = tt

own-IsPart : IsPart own_ip
unfolding parts
own-IsPart = record {
  is_plain = record { no_colon = refl; no_open = refl; no_close = refl };
  no_comma = refl;
}

other-IsPart : IsPart (lit "10.0.0.2")
unfolding parts
other-IsPart = record {
  is_plain = record { no_colon = refl; no_open = refl; no_close = refl };
  no_comma = refl;
}

port-IsPart : IsPart (lit "11000")
unfolding parts
port-IsPart = record {
  is_plain = record { no_colon = refl; no_open = refl; no_close = refl };
  no_comma = refl;
}

empty-IsPart : IsPart []
unfolding parts
empty-IsPart = record {
  is_plain = record { no_colon = refl; no_open = refl; no_close = refl };
  no_comma = refl;
}

abbrev given : Arg
given = record made_arg { host_ip = own_ip }

fix_addr-ports_example :
    (fix_addr machine
        (record given { raft_addr = []; http_addr = host_port (lit "10.0.0.2") (decimal 11000) })
      ≡ some (with_addrs (seen machine given (lit "10.0.0.2")) 11000 given))
    × (fix_addr machine
          (record given { raft_addr = host_port (lit "10.0.0.2") (decimal 11000); http_addr = [] })
        ≡ some (with_addrs (seen machine given (lit "10.0.0.2")) 10000 given))
fix_addr-ports_example =
    fix_addr-ports machine given (lit "10.0.0.2") 11000 other-IsPart.is_plain (omega arith)

-- ":11000,10.0.0.2:11000"
abbrev both : List Pair
both = ([], lit "11000") ∷ (lit "10.0.0.2", lit "11000") ∷ []

abbrev joining : Arg
joining = record given {
  http_addr = host_port own_ip (lit "11000");
  join_addrs = lit ":11000,10.0.0.2:11000";
}

parse_bootstrap-Starts_example :
    (starts : Bool) × (parse_bootstrap machine joining
      ≡ some (record joining { join_addr_slice = map (full own_ip) both; bootstrap = starts }))
    × ((starts ≡ true) ↔ Starts machine own_ip (own_ip, lit "11000") both)
parse_bootstrap-Starts_example =
    parse_bootstrap-Starts machine joining own-IsPart.is_plain port-IsPart.is_plain refl
      own-IsPart.is_plain refl both ((empty-IsPart, port-IsPart), ((other-IsPart, port-IsPart), tt))
      (unfold joined in refl)

started_alone :
    parse_bootstrap machine joining
    ≡ some (record joining {
      join_addr_slice = lit "10.0.0.1:11000" ∷ lit "10.0.0.2:11000" ∷ [];
      bootstrap = true;
    })
unfolding parse_bootstrap join_slice boots split cut_last contains split_at plain split_host_port
    empty_then ◌==◌
started_alone = refl

-- Settings that hold nothing but the default of one key, a Boolean.
abbrev nothing_set : ViperProvider
nothing_set = record {
  State = Option (Text × Bool);
  set_default = λ key b s. some (key, b);
  get_bool = λ key s. elim s [ none ↦ false | some (k, b) ↦ if k == key then b else false ];
  get_string = λ key s. elim s [
    | none ↦ []
    | some (k, b) ↦ if key == k then (if b then lit "true" else lit "false") else []
  ];
}
