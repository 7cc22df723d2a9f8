-- ===== src/Tests/Replicating.antt =====
-- Two nodes: one applies a Set and persists a snapshot, and the other is sent it and starts again.
use hraftd.Common.{
  ℕ, arith, ◌*◌, ◌≤◌, ◌≡◌, refl, true, Bool, Option, none, some, List, [], ◌∷◌, ◌++◌, take, Any,
  All,
}
use hraftd.Common.Text.{Text, lit, ◌==◌}
use hraftd.Common.Map.{Map, lookup, insert, delete}
use hraftd.Dealers.{nil, intercept, invoke, taken}
use hraftd.World.{Server}
use hraftd.Store.State.{parse_time, format_time}
use hraftd.Store.Machine.{
  apply_set, is_fresh, apply_command, apply_read, apply, get, set, set_command, delete_key,
  delete_command, clone_from, clone_map, snapshot, restore,
}
use hraftd.Replication.{
  Entry, Replica, System, Reach, new_replica, restarted, installed, put, applies, snapshots,
  persists, restarts, installs, begun, commits, moves, ticks, HasText,
}
use hraftd.Replication.Replay.{prefix}
use hraftd.Common.Result.{ok}
use hraftd.Address.{key_path}
use hraftd.Http.{HttpRequest}
use hraftd.Service.Answers.{no_response, write_header}
use hraftd.Service.Keys.{slash, set_all, post_read, do_key_post, do_key_delete}
use hraftd.Service.Routes.{serve_http}
use hraftd.Service.Posts.{shown}
use hraftd.Replication.Served.{Accepted, entry_at, get-posted}
use hraftd.Replication.Deleted.{get-deleted}
use hraftd.Tests.Services.{request, get_foo, not_empty}
use hraftd.Replication.Written.{Sets}
use hraftd.Replication.Reads.{Elsewhere, get-replay, get-Sets}
use hraftd.Tests.Packing.{packing, packing-IsJson}
use hraftd.Tests.Sample.{sample, utc-IsClock}
use hraftd.Tests.Stores.{passes, ordinary}

replicas : Unit {0}
unfolding ◌==◌ lookup insert delete intercept invoke taken parse_time format_time apply_set is_fresh
    apply_command apply_read apply get clone_from clone_map snapshot restore
replicas = tt

abbrev second : ℕ
second = 1_000_000_000

abbrev entry : Entry
entry = record {
  log = packing.command.encode (set_command sample (lit "foo") (lit "new") (1000 * second));
  timely = true;
}

abbrev init : ℕ → Option Server
init i = none

abbrev empty : System sample
empty = record { committed = []; replicas = λ i. new_replica sample 0 none }

abbrev one_entry : System sample
one_entry = record empty { committed = entry ∷ [] }

abbrev kept : Map Text
kept = (lit "foo", lit "new") ∷ []

-- the first node, by whose clock the entry is in time
abbrev at_work : Replica sample
at_work = record (new_replica sample 0 none) { clock = 1001 * second }

abbrev first : Replica sample
first = record at_work { applied = 1; store = record { kv = kept; state = none } }

abbrev first_pending : Replica sample
first_pending = record first { pending = some (1, snapshot sample first.store) }

abbrev first_saved : Replica sample
first_saved = record first {
  saved = some (1, packing.text_map.encode (snapshot sample first.store));
}

abbrev saved : System sample
saved =
    put sample (put sample (put sample (put sample one_entry 0 at_work) 0 first) 0 first_pending) 0
      first_saved

abbrev second_installed : Replica sample
second_installed =
    installed sample 1 (packing.text_map.encode (snapshot sample first.store))
      (new_replica sample 0 none)

abbrev second_restarted : Replica sample
second_restarted = restarted sample none second_installed

abbrev last : System sample
last = put sample (put sample saved 1 second_installed) 1 second_restarted

entry_text : HasText sample entry
unfolding replicas
entry_text = (refl, refl, refl, refl)

one_entry_reached : Reach sample init one_entry
one_entry_reached = commits entry entry_text begun

last_reached : Reach sample init last
unfolding replicas
last_reached =
    moves 1
      (moves 1
        (moves 0
          (moves 0
            (moves 0 (moves 0 one_entry_reached (ticks (1001 * second) (omega arith)))
              (applies entry nil first.store refl refl refl))
            snapshots)
          (persists 1 (snapshot sample first.store) refl))
        (installs 0 1 _ refl))
      (restarts none)

get-replay_example :
    (1 ≤ 1) × ((k : Text) → get sample k (last.replicas 1).store ≡ prefix sample (entry ∷ []) 1 k)
get-replay_example = get-replay sample packing-IsJson init last 1 last_reached

foo_read : get sample (lit "foo") (last.replicas 1).store ≡ some (lit "new")
unfolding replicas
foo_read = refl

get-Sets_example : Any (Sets sample (lit "foo") (lit "new")) (entry ∷ [])
get-Sets_example =
    get-Sets sample packing-IsJson init last 1 (lit "foo") (lit "new") last_reached foo_read

-- The second node, by whose clock the entry is in time.
abbrev one_waits : System sample
one_waits = put sample one_entry 1 at_work

abbrev noon : Option Server → ℕ
noon s = 1000 * second

abbrev new_foo : Map Text
new_foo = (lit "foo", lit "new") ∷ []

abbrev post_foo : HttpRequest
post_foo = request (lit "POST") key_path (ok (packing.text_map.encode new_foo))

answered : (do_key_post sample noon no_response post_foo none).0.status ≡ none
unfolding replicas do_key_post post_read set_all set write_header
answered = refl

found : lookup (lit "foo") new_foo ≡ some (lit "new")
unfolding replicas
found = refl

get-posted_example :
    (at : Option Server) × Accepted sample noon (lit "foo") (lit "new") at
    × ((start : ℕ → Option Server) (system : System sample) (i : ℕ) (before after : List Entry)
          (r : HttpRequest) (here : Option Server)
        → Reach sample start system
        → take (system.replicas i).applied system.committed
          ≡ before ++ entry_at sample noon (lit "foo") (lit "new") at ∷ after
        → All (Elsewhere sample (lit "foo")) after
        → r.method ≡ lit "GET"
        → r.path ≡ key_path ++ slash ++ lit "foo"
        → serve_http sample noon (system.replicas i).store.kv no_response r here
          ≡ (shown sample noon (lit "foo") (some (lit "new")), here))
get-posted_example =
    get-posted sample noon packing-IsJson utc-IsClock post_foo none new_foo (lit "foo") (lit "new")
      refl answered found refl refl not_empty ordinary
      (λ t. passes (set_command sample (lit "foo") (lit "new") t))

-- The second node answers a GET so, although it has applied the entry by a snapshot alone.
get_second :
    serve_http sample noon (last.replicas 1).store.kv no_response get_foo none
    ≡ (shown sample noon (lit "foo") (some (lit "new")), none)
get_second = get-posted_example.2 init last 1 [] [] get_foo none last_reached refl tt refl refl

abbrev delete_foo : HttpRequest
delete_foo = request (lit "DELETE") (key_path ++ slash ++ lit "foo") (ok [])

removed : (do_key_delete sample noon (lit "foo") no_response delete_foo none).0.status ≡ none
unfolding replicas do_key_delete delete_key write_header
removed = refl

get-deleted_example :
    let entry = packing.command.encode (delete_command sample (lit "foo") (1000 * second)) in
    (◌≡◌ {A = Bool} true true)
    × (◌≡◌ {A = Option Text} none none)
    × ((start : ℕ → Option Server) (system : System sample) (i : ℕ) (timely : Bool)
          (before after : List Entry) (r : HttpRequest) (here : Option Server)
        → Reach sample start system
        → take (system.replicas i).applied system.committed
          ≡ before ++ record { log = entry; timely = timely } ∷ after
        → All (Elsewhere sample (lit "foo")) after
        → r.method ≡ lit "GET"
        → r.path ≡ key_path ++ slash ++ lit "foo"
        → serve_http sample noon (system.replicas i).store.kv no_response r here
          ≡ (shown sample noon (lit "foo") none, here))
get-deleted_example =
    get-deleted sample noon packing-IsJson utc-IsClock (lit "foo") delete_foo none removed refl
      not_empty (passes (delete_command sample (lit "foo") (1000 * second)))
