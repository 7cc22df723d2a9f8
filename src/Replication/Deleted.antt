-- ===== src/Replication/Deleted.antt =====
-- From a DELETE of a key on the leader to a GET on any node (service_key.go), over the replicated log.
use hraftd.Common.{
  ℕ, ◌≡◌, ◌≢◌, ap, ◌∙◌, true, Bool, none, List, [], ◌∷◌, ◌++◌, arith, take, All, Bool-cases,
  Option-cases, inl, inr,
}
use hraftd.Common.Text.{Text, lit}
use hraftd.Address.{key_path}
use hraftd.Http.{HttpRequest}
use hraftd.Common.Utf8.{IsUtf8}
use hraftd.World.{IsJson, IsClock}
use hraftd.Env.{Env}
use hraftd.Store.Machine.{get, delete_key, delete_command}
use hraftd.Store.Fsm.{PassesOn}
use hraftd.Service.Answers.{no_response, write_header, S}
use hraftd.Service.Keys.{slash, do_key_delete}
use hraftd.Service.Routes.{serve_http}
use hraftd.Service.Posts.{shown, serve_http-get}
use hraftd.Replication.{Entry, System, Reach}
use hraftd.Replication.Reads.{Elsewhere, get-delete}

module _ (env : Env) (now : S env → ℕ) where
  open env use {codecs, world}

  delete_key-accepted :
      (key : Text) (s : S env)
      → (delete_key env key (now s) s).0 ≡ none
      → (world.is_leader s ≡ true)
        × ((world.raft_apply (codecs.command.encode (delete_command env key (now s))) s).0 ≡ none)
  unfolding delete_key
  delete_key-accepted key s h = elim (Bool-cases (world.is_leader s)) [
    | inl leads ↦ (leads, rw leads at h)
    | inr follows ↦ absurd (ground arith)
  ]

  do_key_delete-done :
      (key : Text) (r : HttpRequest) (s : S env)
      → (do_key_delete env now key no_response r s).0.status ≡ none
      → (delete_key env key (now s) s).0 ≡ none
  unfolding do_key_delete write_header
  do_key_delete-done key r s h = elim (Option-cases (delete_key env key (now s) s).0) [
    | inl done ↦ done
    | inr (e, fails) ↦ absurd (ground arith)
  ]

  -- A DELETE of a key in UTF-8, which is not empty, on the leader that is answered with the default status has had its entry
  -- accepted by raft. Wherever that entry is committed and left to the store, a GET of the key on any
  -- node that has applied it, and behind it only entries with other keys, is answered with 404.
  pub get-deleted :
      (json : IsJson codecs) (clock : IsClock env.clock) (key : Text) (request : HttpRequest)
      (s : S env)
      → (do_key_delete env now key no_response request s).0.status ≡ none
      → IsUtf8 key
      → key ≢ []
      → PassesOn env (delete_command env key (now s))
      → let entry = codecs.command.encode (delete_command env key (now s)) in
        (world.is_leader s ≡ true)
        × ((world.raft_apply entry s).0 ≡ none)
        × ((init : ℕ → S env) (system : System env) (i : ℕ) (timely : Bool)
              (before after : List Entry) (r : HttpRequest) (here : S env)
            → Reach env init system
            → take (system.replicas i).applied system.committed
              ≡ before ++ record { log = entry; timely = timely } ∷ after
            → All (Elsewhere env key) after
            → r.method ≡ lit "GET"
            → r.path ≡ key_path ++ slash ++ key
            → serve_http env now (system.replicas i).store.kv no_response r here
              ≡ (shown env now key none, here))
  unfolding get
  get-deleted json clock key request s status key_text some_key passes =
      let (leads, accepted) = delete_key-accepted key s (do_key_delete-done key request s status) in
      (
        leads,
        accepted,
        λ init system i timely before after r here reached applied others by path.
            serve_http-get env now (system.replicas i).store.kv key r here some_key by path
            ∙ ap (λ o. (shown env now key o, here))
                (get-delete env json clock init system i key (now s) timely before after reached
                  key_text passes applied others),
      )
