-- ===== src/Store/Walks.antt =====
-- One round of `walkRaftServers`, and of the function that `Join` walks with.
use hraftd.Common.{◌≡◌, Bool, true, false, Option, none, some, List, ◌∷◌, ◌++◌, arith}
use hraftd.Common.Text.{Text, lit, ◌==◌}
use hraftd.Common.Result.{Result, ok, err}
use hraftd.World.{Server}
use hraftd.Env.{Env}
use hraftd.Store.Membership.{
  walk, visit, take_out, removal_failed, after_adding, adding_failed, after_removal, join_node,
  remove, finish_join, walk_raft_servers,
}
use hraftd.Store.PeersFile.{write_config_entries}

module _ {ℓ} {S : Type ℓ} (fn : Server → S → Result Bool × S) (srv : Server) (servers : List Server)
    (s s' : S) where
  pub walk-goes_on : fn srv s ≡ (ok true, s') → walk fn (srv ∷ servers) s ≡ walk fn servers s'
  unfolding walk
  walk-goes_on h = ground arith

  pub walk-stops : fn srv s ≡ (ok false, s') → walk fn (srv ∷ servers) s ≡ (none, s')
  unfolding walk
  walk-stops h = ground arith

  pub walk-fails :
      (e : Text)
      → fn srv s ≡ (err e, s')
      → walk fn (srv ∷ servers) s ≡ (some (lit "failed to invoke walk fn: " ++ e), s')
  unfolding walk
  walk-fails e h = ground arith

module _ (env : Env) (id addr : Text) (srv : Server) (already : Bool) (s : env.world.State) where
  pub visit-both :
      (srv.id == id) ≡ true
      → (srv.address == addr) ≡ true
      → visit env id addr srv (already, s) ≡ (ok false, (true, s))
  unfolding visit
  visit-both h k = ground arith

  pub visit-neither :
      (srv.id == id) ≡ false
      → (srv.address == addr) ≡ false
      → visit env id addr srv (already, s) ≡ (ok true, (already, s))
  unfolding visit
  visit-neither h k = ground arith

  pub visit-id :
      (srv.id == id) ≡ true
      → (srv.address == addr) ≡ false
      → visit env id addr srv (already, s)
        ≡ take_out env id addr already (env.world.remove_server srv.id s)
  unfolding visit
  visit-id h k = ground arith

  pub visit-address :
      (srv.id == id) ≡ false
      → (srv.address == addr) ≡ true
      → visit env id addr srv (already, s)
        ≡ take_out env id addr already (env.world.remove_server srv.id s)
  unfolding visit
  visit-address h k = ground arith

module _ (env : Env) (id addr : Text) (already : Bool) (r : Option Text × env.world.State) where
  pub take_out-removed : r.0 ≡ none → take_out env id addr already r ≡ (ok true, (already, r.1))
  unfolding take_out
  take_out-removed h = ground arith

  pub take_out-fails :
      (e : Text)
      → r.0 ≡ some e
      → take_out env id addr already r ≡ (err (removal_failed env id addr e), (already, r.1))
  unfolding take_out
  take_out-fails e h = ground arith

  pub after_adding-added :
      r.0 ≡ none → after_adding env id addr r ≡ (none, (write_config_entries env r.1).1)
  unfolding after_adding
  after_adding-added h = ground arith

  pub after_adding-fails :
      (e : Text)
      → r.0 ≡ some e
      → after_adding env id addr r ≡ (some (adding_failed env id addr e), r.1)
  unfolding after_adding
  after_adding-fails e h = ground arith

module _ (env : Env) (r : Option Text × env.world.State) where
  pub after_removal-removed :
      r.0 ≡ none → after_removal env r ≡ (none, (write_config_entries env r.1).1)
  unfolding after_removal
  after_removal-removed h = ground arith

  pub after_removal-fails : (e : Text) → r.0 ≡ some e → after_removal env r ≡ (some e, r.1)
  unfolding after_removal
  after_removal-fails e h = ground arith

module _ (env : Env) (s : env.world.State) (leads : env.world.is_leader s ≡ true) where
  pub join_node-leads :
      (id addr : Text) (l : List Server)
      → env.world.configuration s ≡ ok l
      → join_node env id addr s ≡ finish_join env id addr (walk (visit env id addr) l (false, s))
  unfolding join_node walk_raft_servers
  join_node-leads id addr l conf = rw (leads, conf, walk_raft_servers)

  pub remove-leads :
      (id : Text) → remove env id s ≡ after_removal env (env.world.remove_server id s)
  unfolding remove
  remove-leads id = rw leads
