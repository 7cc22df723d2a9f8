-- ===== src/Tests/Sample.antt =====
-- A world with room for one server in the raft configuration, whose HTTP requests all fail, and a
-- clock that shows UTC.
use hraftd.Common.{
  ℕ, zero, suc, ◌+◌, ◌*◌, ◌/◌, ◌≤◌, ◌<◌, All, eqb, ◌-◌, ◌%◌, ◌≡◌, ◌≢◌, ◌↔◌, ◌⊎◌, inl, inr, refl,
  sym, ap, ◌∙◌, true, false, Option, none, some, List, [], ◌∷◌, arith, if◌then◌else◌, Bool-cases,
}
use hraftd.Common.Text.{Text, lit, ◌==◌, eq_iff, eq_of_test}
use hraftd.Common.Utf8.{ascii-IsUtf8}
use hraftd.Common.Result.{Result, ok, err, value_or}
use hraftd.World.{Suffrage, voter, nonvoter, staging, Server, Clock, IsClock, World, IsRaft, IsIn}
use hraftd.Env.{Env}
use hraftd.Tests.Packing.{packing}

abbrev read_time : Text → Result ℕ
read_time [] = err []
read_time (n ∷ s) = ok n

-- A number in binary, its last digit first; as many digits as the number are enough.
abbrev digits : ℕ → ℕ → Text
digits zero n = []
digits (suc room) n = elim (eqb n 0) [ true ↦ [] | false ↦ n % 2 ∷ digits room (n / 2) ]

abbrev number : Text → ℕ
number [] = 0
number (b ∷ t) = b + 2 * number t

number-digits : (room n : ℕ) → n ≤ room → number (digits room n) ≡ n
number-digits zero n h = omega arith
number-digits (suc room) n h = elim (Bool-cases (eqb n 0)) [
  | inl nought ↦ rw (nought, number, digits) (ground arith)
  | inr more ↦
      let positive : 0 < n = ground arith in
      rw (more, number, digits)
        (omega (arith, number-digits room (n / 2) (omega (arith, positive))))
]

digits-ascii : (room n : ℕ) → All (λ b. b ≤ 127) (digits room n)
digits-ascii zero n = tt
digits-ascii (suc room) n = elim (Bool-cases (eqb n 0)) [
  | inl nought ↦ rw (nought, All, digits) tt
  | inr more ↦ rw (more, All, digits) (omega arith, digits-ascii room (n / 2))
]

abbrev show_number : ℕ → Text
show_number n = b'T' ∷ digits n n

abbrev parse_number : Text → Result ℕ
parse_number [] = err []
parse_number (b ∷ t) = ok (number t)

abbrev pub utc : Clock
utc = record { wall = λ t. t; format = λ t. show_number (t - t % 1_000_000); parse = parse_number }

pub utc-IsClock : IsClock utc
utc-IsClock = record {
  parse-format = λ t. ap ok (number-digits (t - t % 1_000_000) (t - t % 1_000_000) (omega arith));
  text = λ t.
      ascii-IsUtf8 (show_number (t - t % 1_000_000))
        (omega arith, digits-ascii (t - t % 1_000_000) (t - t % 1_000_000));
}

abbrev suffrage_name : Suffrage → Text
suffrage_name voter = lit "Voter"
suffrage_name nonvoter = lit "Nonvoter"
suffrage_name staging = lit "Staging"

abbrev servers_in : Option Server → List Server
servers_in none = []
servers_in (some x) = x ∷ []

abbrev refused : Text
refused = lit "refused"

abbrev remove_one : Text → Option Server → Option Server
remove_one id none = none
remove_one id (some x) = if x.id == id then none else some x

abbrev add_one : Text → Text → Option Server → Option Text × Option Server
add_one id addr none = (none, some (record { suffrage = voter; id = id; address = addr }))
add_one id addr (some x) =
    if x.id == id
    then (none, some (record { suffrage = voter; id = id; address = addr }))
    else (some refused, some x)

abbrev pub one_server : World
one_server = record {
  State = Option Server;
  is_leader = λ s. true;
  node_state = λ s. lit "Leader";
  leader_name = lit "Leader";
  leader_addr = λ s. elim s [ none ↦ [] | some x ↦ x.address ];
  suffrage_name = suffrage_name;
  configuration = λ s. ok (servers_in s);
  remove_server = λ id s. (none, remove_one id s);
  add_voter = add_one;
  raft_apply = λ entry s. (none, s);
  write_peers = λ content s. (none, s);
  read_peers = λ s. err refused;
  last_index = λ s. 3;
  applied_index = λ s. elim s [ none ↦ 2 | some x ↦ 3 ];
  stats = λ s. (lit "state", lit "Leader") ∷ (lit "latest_configuration", []) ∷ [];
  round_trip = λ r s. ((502, []), s);
  http_get = λ url s. (err refused, s);
  http_post = λ url body s. (err refused, s);
}

-- Surroundings in which nothing happens and nobody answers.
abbrev pub quiet : Type 0 → World
quiet S = record {
  State = S;
  is_leader = λ s. true;
  node_state = λ s. lit "Leader";
  leader_name = lit "Leader";
  leader_addr = λ s. [];
  suffrage_name = suffrage_name;
  configuration = λ s. ok [];
  remove_server = λ id s. (none, s);
  add_voter = λ id addr s. (none, s);
  raft_apply = λ entry s. (none, s);
  write_peers = λ content s. (none, s);
  read_peers = λ s. err (lit "refused");
  last_index = λ s. 3;
  applied_index = λ s. 3;
  stats = λ s. [];
  round_trip = λ r s. ((502, []), s);
  http_get = λ url s. (err (lit "refused"), s);
  http_post = λ url body s. (err (lit "refused"), s);
}

one_unique :
    (s : Option Server) (x y : Server) → IsIn x (servers_in s) → IsIn y (servers_in s) → x ≡ y
one_unique none x y h k = elim h [ ]
one_unique (some z) x y (inl h) (inl k) = sym h ∙ k
one_unique (some z) x y (inl h) (inr k) = elim k [ ]
one_unique (some z) x y (inr h) k = elim h [ ]

removed-one :
    (id : Text) (s : Option Server) (x : Server)
    → IsIn x (servers_in (remove_one id s)) ↔ (IsIn x (servers_in s) × (x.id ≢ id))
removed-one id none x = ((λ h. elim h [ ]), λ h. elim h.0 [ ])
removed-one id (some z) x = elim (Bool-cases (z.id == id)) [
  | inl same ↦
      let e : remove_one id (some z) ≡ none = rw same in
      rw e (
        (λ h. elim h [ ]),
        λ h. elim h.0 [
          | inl here ↦ h.1 (ap (λ (y : Server). y.id) (sym here) ∙ eq_of_test z.id id same)
          | inr f ↦ absurd f
        ],
      )
  | inr other ↦
      let e : remove_one id (some z) ≡ some z = rw other in
      rw e (
        (λ h. elim h [
          | inl here ↦
              (inl here, λ k. cc (other, (eq_iff z.id id).1 (ap (λ (y : Server). y.id) here ∙ k)))
          | inr f ↦ absurd f
        ]),
        λ h. h.0,
      )
]

abbrev new_one : Text → Text → Server
new_one id addr = record { suffrage = voter; id = id; address = addr }

added-one :
    (id addr : Text) (s s' : Option Server)
    → add_one id addr s ≡ (none, s')
    → (x : Server)
    → IsIn x (servers_in s') ↔ ((x ≡ new_one id addr) ⊎ (IsIn x (servers_in s) × (x.id ≢ id)))
added-one id addr none s' h x =
    let e : some (new_one id addr) ≡ s' = cc in
    rw (← e) (
      (λ k. elim k [ inl here ↦ inl (sym here) | inr f ↦ absurd f ]),
      λ k. elim k [ inl same ↦ inl (sym same) | inr (f, _) ↦ absurd f ],
    )
added-one id addr (some z) s' h x = elim (Bool-cases (z.id == id)) [
  | inr other ↦ absurd (ground arith)
  | inl same ↦
      let e : some (new_one id addr) ≡ s' = ground arith in
      rw (← e) (
        (λ k. elim k [ inl here ↦ inl (sym here) | inr f ↦ absurd f ]),
        λ k. elim k [
          | inl now ↦ inl (sym now)
          | inr (inl here, differs) ↦
              absurd (differs (ap (λ (y : Server). y.id) (sym here) ∙ eq_of_test z.id id same))
          | inr (inr f, _) ↦ absurd f
        ],
      )
]

ok-inj : (a b : List Server) → ◌≡◌ {A = Result (List Server)} (ok a) (ok b) → a ≡ b
ok-inj a b h = cc

pub one_server-IsRaft : IsRaft one_server
one_server-IsRaft = record {
  unique = λ s l h x y at_x at_y _.
      let e = ok-inj (servers_in s) l h in one_unique s x y (rw (← e) at at_x) (rw (← e) at at_y);
  removed = λ id s s' l h done.
      let e : remove_one id s ≡ s' = ap (λ r. r.1) done in
      (servers_in s', refl, λ x. rw (← e) (rw (← ok-inj (servers_in s) l h) (removed-one id s x)));
  added = λ id addr s s' l h done.
      (servers_in s', refl, λ x. rw (← ok-inj (servers_in s) l h) (added-one id addr s s' done x));
  written = λ content s. refl;
  proposed = λ entry s. refl;
  asked = λ url s. refl;
}

abbrev pub sample : Env
sample = record {
  Request = Text;
  Value = Text;
  codecs = packing;
  clock = utc;
  world = one_server;
  interceptor = none;
  log_dealers = [];
  dealers = [];
  node_id = lit "10.0.0.1:11000,10.0.0.1:12000";
  raft_addr = lit "10.0.0.1:12000";
  Json = ℕ;
  parse_json = read_time;
  read_bytes = λ b. value_or [] b;
  hostname = lit "one";
  main_ip = lit "10.0.0.1";
  start_time = lit "2021-01-01 00:00:00.000";
}
