-- ===== src/Tests/Stores.antt =====
-- The store: entries, runs, snapshots.
use hraftd.Common.{ℕ, ◌+◌, ◌*◌, ◌≡◌, ◌≢◌, refl, none, some, List, [], ◌∷◌, arith, if◌then◌else◌}
use hraftd.Common.Text.{lit, ◌==◌, eq_iff}
use hraftd.Common.Map.{lookup, insert, delete, Distinct}
use hraftd.Model.{Command}
use hraftd.Dealers.{Log, nil, intercept, invoke, taken}
use hraftd.Store.State.{Store, cluster_key, too_old, parse_time, format_time}
use hraftd.Store.Machine.{
  apply_set, is_fresh, apply_command, apply_read, apply, get, set_command, clone_from, clone_map,
  snapshot, restore, Sink,
}
use hraftd.Store.Fsm.{SameView, PassesOn, read_back, apply-set_command}
use hraftd.Store.Replicas.{run, SameEntries, Agree, AgreeReply, run-Agree, apply-set_diverges}
use hraftd.Store.Snapshots.{run-restore}
use hraftd.Common.Utf8.{IsUtf8Map, pairs-IsUtf8Map}
use hraftd.Tests.Packing.{packing, packing-IsJson}
use hraftd.Tests.Sample.{sample, utc-IsClock}

stores : Unit {0}
unfolding ◌==◌ lookup insert delete intercept invoke taken parse_time format_time apply_set is_fresh
    apply_command apply_read apply get clone_from clone_map snapshot restore run
stores = tt

abbrev second : ℕ
second = 1_000_000_000

abbrev before : Store sample
before = record { kv = (lit "foo", lit "old") ∷ (lit "bar", lit "x") ∷ []; state = none }

abbrev set_foo : Command
set_foo = set_command sample (lit "foo") (lit "new") (1000 * second)

abbrev entry : Log
entry = packing.command.encode set_foo

set_in_time :
    apply sample (1001 * second) entry before
    ≡ some (nil, record before { kv = (lit "foo", lit "new") ∷ (lit "bar", lit "x") ∷ [] })
unfolding stores
set_in_time = refl

set_too_late : apply sample (1101 * second) entry before ≡ some (nil, before)
unfolding stores
set_too_late = refl

pub passes : (c : Command) → PassesOn sample c
unfolding stores
passes c l = refl

distinct : Distinct before.kv
unfolding stores
distinct = (refl, (refl, tt))

pub ordinary : lit "foo" ≢ cluster_key
ordinary e = ground (arith, e)

apply-set_command_example :
    apply sample (1001 * second) entry before
    ≡ some (
      nil,
      if too_old (read_back sample (1000 * second)) (1001 * second)
          then before
          else record before { kv = insert (lit "foo") (lit "new") before.kv },
    )
apply-set_command_example =
    apply-set_command sample packing-IsJson utc-IsClock (lit "foo") (lit "new") (1000 * second)
      (1001 * second) before refl refl ordinary (passes set_foo)

apply-set_diverges_example : ¬ (
    AgreeReply sample
      (apply sample (1001 * second) entry before)
      (apply sample (1101 * second) entry before))
apply-set_diverges_example =
    apply-set_diverges sample packing-IsJson utc-IsClock (lit "foo") (lit "new") (1000 * second)
      (1001 * second) (1101 * second) before refl refl ordinary (passes set_foo) refl refl
      (unfold stores in cc)

-- The same contents in another order, on another replica.
abbrev replica : Store sample
replica = record { kv = (lit "bar", lit "x") ∷ (lit "foo", lit "old") ∷ []; state = none }

same_view : SameView before.kv replica.kv
unfolding lookup
same_view k = ground (arith, eq_iff (lit "foo") k, eq_iff (lit "bar") k)

abbrev early : List (ℕ × Log)
early = (1001 * second, entry) ∷ []

abbrev late : List (ℕ × Log)
late = (1002 * second, entry) ∷ []

same_entries : SameEntries sample early late
unfolding stores
same_entries = (refl, refl, tt)

run-Agree_example : Agree sample (run sample early before) (run sample late replica)
run-Agree_example = run-Agree sample early late before replica same_entries same_view

before_texts : IsUtf8Map before.kv
before_texts = pairs-IsUtf8Map before.kv ((refl, refl), ((refl, refl), tt))

run-restore_example :
    Agree sample
      (run sample early
        (restore sample (packing.text_map.encode (snapshot sample before)) replica).1)
      (run sample late before)
run-restore_example =
    run-restore sample packing-IsJson before replica early late distinct before_texts same_entries

-- A sink that counts its calls, and whose Close fails.
abbrev broken : Sink
broken = record {
  State = ℕ;
  write = λ content n. (none, n + 1);
  close = λ n. (some (lit "closed"), n + 10);
  cancel = λ n. (none, n + 100);
}
