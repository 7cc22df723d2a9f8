-- ===== src/Store/State.antt =====
-- The state of `RaftStore` (store.go), its constants, and the times of util.go.
use hraftd.Common.{ℕ, ◌+◌, Bool, ltb}
use hraftd.Common.Text.{Text, lit}
use hraftd.Common.Map.{Map}
use hraftd.Common.Result.{Result}
use hraftd.World.{Clock}
use hraftd.Env.{Env}

-- RaftStore
pub record Store (env : Env) : Type 0 where
  pub kv : Map Text
  pub state : env.world.State

abbrev pub op_set : Text
op_set = lit "set"

abbrev pub op_delete : Text
op_delete = lit "delete"

abbrev pub cluster_key : Text
cluster_key = lit "/raft/cluster"

abbrev pub err_not_leader : Text
err_not_leader = lit "not leader"

-- 100*time.Second
abbrev pub max_age : ℕ
max_age = 100_000_000_000

-- t.Before(now.Add(-100*time.Second))
abbrev pub too_old : ℕ → ℕ → Bool
too_old t now = ltb (t + max_age) now

-- FormatTime and ParseTime of util.go: what is printed is the wall clock's time, and what is read is
-- taken for UTC
unfoldable pub format_time : Clock → ℕ → Text
format_time clock t = clock.format (clock.wall t)

unfoldable pub parse_time : Clock → Text → Result ℕ
parse_time clock s = clock.parse s
