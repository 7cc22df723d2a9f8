-- ===== src/Service/Keys.antt =====
-- The handlers of keys and of `/remove` (service_key.go). The text that a POST's body decodes to is
-- walked in the order in which the decoder lists it, which stands for the order that Go picks. `now`
-- is time.Now(), as the surroundings tell it.
use hraftd.Common.{ℕ, true, not, Option, none, some, [], ◌∷◌, if◌then◌else◌}
use hraftd.Common.Text.{Text, lit, ◌==◌, trim_prefix}
use hraftd.Common.Result.{ok, err}
use hraftd.Common.Map.{Map, lookup}
use hraftd.Address.{key_path}
use hraftd.Model.{Rsp}
use hraftd.Http.{HttpRequest}
use hraftd.World.{WithError}
use hraftd.Env.{Env}
use hraftd.Store.Machine.{get, set, delete_key}
use hraftd.Store.Membership.{remove}
use hraftd.Service.Answers.{
  done, refused, Outcome, answer_rsp, answer_entry, decode_body, W, S, Handler, HandlerE,
  write_header, write, try_parse_json,
}
use hraftd.Service.Forward.{try_forward_to_leader}

abbrev pub rsp_ok : Text → Rsp
rsp_ok msg = record { success = true; msg = msg; payload = [] }

abbrev pub slash : Text
slash = lit "/"

module _ (env : Env) where
  open env use {codecs, world}

  -- getKey
  unfoldable pub get_key : HttpRequest → W env → Option Text × W env
  get_key r w =
      let key = trim_prefix (trim_prefix r.path key_path) slash in
      if not (key == []) then (some key, w) else (none, write_header env 400 w)

  -- the answer to a GET
  unfoldable pub answer_get : Text → Option Text → W env → W env
  answer_get key (some v) w = write env (answer_entry key (try_parse_json env v)) w
  answer_get key none w = write_header env 404 w

  -- what is done with the error of Store.Delete
  abbrev pub after_delete : W env → Option Text × S env → W env × S env
  after_delete w (none, s) = (w, s)
  after_delete w (some e, s) = (write_header env 500 w, s)

  module _ (now : S env → ℕ) where
    -- the loop of doKeyPost
    unfoldable pub set_all : W env → Map Text → S env → W env × S env
    set_all w [] s = (w, s)
    set_all w ((k, v) ∷ m) s =
        let (e, s') = set env k v (now s) s in
        elim e [ some _ ↦ (write_header env 500 w, s') | none ↦ set_all w m s' ]

    -- doKeyPost, once the body is read
    unfoldable pub post_read : WithError (Map Text) → W env → S env → W env × S env
    post_read (m, some e) w s = (write_header env 400 w, s)
    post_read (m, none) w s = set_all w m s

    -- Service.doKeyPost
    unfoldable pub do_key_post : Handler env
    do_key_post w r s = post_read (decode_body codecs.text_map [] r.body) w s

    -- the function that DELETE hands to tryForwardToLeader
    unfoldable pub do_key_delete : Text → Handler env
    do_key_delete key w r s = after_delete w (delete_key env key (now s) s)

    -- Service.handleKeyRequest; it reads the map, which `Apply` alone changes
    unfoldable pub handle_key_request : Map Text → Handler env
    handle_key_request kv w r s =
        if r.method == lit "GET"
        then (let (found, w') = get_key r w in
            elim found [
              | some key ↦ (answer_get key (get env key (record { kv = kv; state = s })) w', s)
              | none ↦ (w', s)
            ])
        else if r.method == lit "POST"
        then try_forward_to_leader env do_key_post w r s
        else if r.method == lit "DELETE"
        then (let (found, w') = get_key r w in
            elim found [
              | some key ↦ try_forward_to_leader env (do_key_delete key) w' r s
              | none ↦ (w', s)
            ])
        else (write_header env 405 w, s)

  -- what is done with the error of Store.Remove
  abbrev pub after_remove : W env → Option Text × S env → Outcome × (W env × S env)
  after_remove w (some e, s) = (refused e, (w, s))
  after_remove w (none, s) = (done, (write env (answer_rsp (rsp_ok (lit "OK"))) w, s))

  -- handleRemove, once the body is read
  unfoldable pub remove_read : WithError (Map Text) → W env → S env → Outcome × (W env × S env)
  remove_read (m, some e) w s = (refused e, (w, s))
  remove_read (m, none) w s = elim (lookup (lit "id") m) [
    | none ↦ (refused (lit "ID not found"), (w, s))
    | some remote_id ↦ after_remove w (remove env remote_id s)
  ]

  -- Service.handleRemove
  unfoldable pub handle_remove : HandlerE env
  handle_remove w r s = elim r.body [
    | err e ↦ (refused e, (w, s))
    | ok b ↦ remove_read (codecs.text_map.decode b) w s
  ]
