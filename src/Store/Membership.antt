-- ===== src/Store/Membership.antt =====
-- The cluster's membership (store.go): `walkRaftServers`, `Join` and `Remove`.
use hraftd.Common.{
  Bool, true, false, ◌&&◌, ◌||◌, Option, none, some, List, [], ◌∷◌, ◌++◌, if◌then◌else◌,
}
use hraftd.Common.Text.{Text, lit, ◌==◌}
use hraftd.Common.Result.{Result, ok, err}
use hraftd.World.{Server}
use hraftd.Env.{Env}
use hraftd.Store.State.{err_not_leader}
use hraftd.Store.PeersFile.{write_config_entries}

-- the loop of walkRaftServers
unfoldable pub walk {ℓ} :
    {S : Type ℓ} → (Server → S → Result Bool × S) → List Server → S → Option Text × S
walk fn [] s = (none, s)
walk fn (srv ∷ servers) s =
    let (r, s') = fn srv s in
    elim r [
      | err e ↦ (some (lit "failed to invoke walk fn: " ++ e), s')
      | ok more ↦ elim more [ true ↦ walk fn servers s' | false ↦ (none, s') ]
    ]

module _ (env : Env) where
  open env use {codecs, clock, world}

  -- what Remove does with the result of RemoveServer
  unfoldable pub after_removal : Option Text × world.State → Option Text × world.State
  after_removal (some e, s) = (some e, s)
  after_removal (none, s) = (none, (write_config_entries env s).1)

  -- RaftStore.Remove
  unfoldable pub remove : Text → world.State → Option Text × world.State
  remove id s =
      if world.is_leader s
      then after_removal (world.remove_server id s)
      else (some err_not_leader, s)

  abbrev pub removal_failed : Text → Text → Text → Text
  removal_failed id addr e =
      lit "error removing existing node " ++ (id ++ lit " at " ++ (addr ++ lit ": " ++ e))

  -- a server with the joining node's ID or address is taken out
  unfoldable pub take_out :
      Text → Text → Bool → Option Text × world.State → Result Bool × (Bool × world.State)
  take_out id addr already (some e, s) = (err (removal_failed id addr e), (already, s))
  take_out id addr already (none, s) = (ok true, (already, s))

  -- the function that Join walks the servers with; the flag is `alreadyJoined`
  unfoldable pub visit :
      Text → Text → Server → Bool × world.State → Result Bool × (Bool × world.State)
  visit id addr srv (already, s) =
      let same_id = srv.id == id in
      let same_addr = srv.address == addr in
      if same_addr && same_id
      then (ok false, (true, s))
      else if same_id || same_addr
      then take_out id addr already (world.remove_server srv.id s)
      else (ok true, (already, s))

  -- walkRaftServers
  unfoldable pub walk_raft_servers {ℓ} :
      {S : Type ℓ} → (Server → S → Result Bool × S) → world.State → S → Option Text × S
  walk_raft_servers fn s a = elim (world.configuration s) [
    | err e ↦ (some (lit "failed to get raft configuration: " ++ e), a)
    | ok servers ↦ walk fn servers a
  ]

  abbrev pub adding_failed : Text → Text → Text → Text
  adding_failed id addr e = lit "node " ++ (id ++ lit " at " ++ (addr ++ lit " joined error " ++ e))

  -- what Join does with the result of AddVoter
  unfoldable pub after_adding : Text → Text → Option Text × world.State → Option Text × world.State
  after_adding id addr (some e, s) = (some (adding_failed id addr e), s)
  after_adding id addr (none, s) = (none, (write_config_entries env s).1)

  -- Join behind the walk
  unfoldable pub finish_join :
      Text → Text → Option Text × (Bool × world.State) → Option Text × world.State
  finish_join id addr (some e, (already, s)) = (some e, s)
  finish_join id addr (none, (already, s)) =
      if already then (none, s) else after_adding id addr (world.add_voter id addr s)

  -- RaftStore.Join
  unfoldable pub join_node : Text → Text → world.State → Option Text × world.State
  join_node id addr s =
      if world.is_leader s
      then finish_join id addr (walk_raft_servers (visit id addr) s (false, s))
      else (some err_not_leader, s)
