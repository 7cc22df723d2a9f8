-- ===== src/Service/Answers.antt =====
-- What the HTTP service answers (service.go, util.go), the handlers' types and the checks of the
-- method. A response is what has been handed to the `http.ResponseWriter`: the first status counts,
-- and a write without one sets 200. The values that are written are kept as they are, in place of
-- their JSON. The content type is left out.
use hraftd.Common.{
  ℕ, Bool, true, false, not, Option, none, some, List, [], ◌∷◌, ◌++◌, if◌then◌else◌,
}
use hraftd.Common.Text.{Text, ◌==◌}
use hraftd.Common.Result.{Result, ok, err}
use hraftd.Common.Map.{Map}
use hraftd.Address.{NodeId}
use hraftd.Model.{RaftCluster, Rsp}
use hraftd.Http.{HttpRequest}
use hraftd.World.{WithError, Codec}
use hraftd.Env.{Env}
use hraftd.Store.Leader.{Stat}

-- NodeState of service_raft.go
pub record NodeState : Type 0 where
  pub start_time : Text
  pub node_id : NodeId
  pub hostname : Text
  pub ip : Text

-- What TryParseJSON returns: a value, or the text that is none.
pub data Parsed (Json : Type 0) : Type 0 where
  parsed : Json → Parsed Json
  raw : Text → Parsed Json

-- What is written: a text, a value as JSON, the body that the leader answered, or a profile.
pub data Payload (Json Value : Type 0) : Type 0 where
  plain_text proxied profile : Text → Payload Json Value
  answer_rsp : Rsp → Payload Json Value
  answer_job : Option Value → Payload Json Value
  answer_entry : Text → Parsed Json → Payload Json Value
  answer_stats : Map Stat → Payload Json Value
  answer_node : NodeState → Payload Json Value
  answer_cluster : RaftCluster → Payload Json Value

-- A response; a panic of the handler, which net/http recovers, aborts it.
pub record Response (Json Value : Type 0) : Type 0 where
  pub status : Option ℕ
  pub written : List (Payload Json Value)
  pub aborted : Bool

abbrev pub no_response : {Json Value : Type 0} → Response Json Value
no_response = record { status = none; written = []; aborted = false }

-- what a handler that returns an error ends with
pub data Outcome : Type 0 where
  done panicked : Outcome
  refused : Text → Outcome

abbrev pub outcome_of : Option Text → Outcome
outcome_of none = done
outcome_of (some e) = refused e

-- Decoder.Decode on the body of a request
abbrev pub decode_body : {A : Type 0} → Codec A → A → Result Text → WithError A
decode_body codec zero_value (err e) = (zero_value, some e)
decode_body codec zero_value (ok body) = codec.decode_first body

module _ (env : Env) where
  abbrev pub W : Type 0
  W = Response env.Json env.Value

  abbrev pub S : Type 0
  S = env.world.State

  -- ServeHTTPFn and ServeHTTPFnE
  abbrev pub Handler : Type 0
  Handler = W → HttpRequest → S → W × S

  abbrev pub HandlerE : Type 0
  HandlerE = W → HttpRequest → S → Outcome × (W × S)

  -- ResponseWriter.WriteHeader and Write
  unfoldable pub write_header : ℕ → W → W
  write_header code w = elim w.status [ some _ ↦ w | none ↦ record w { status = some code } ]

  unfoldable pub write : Payload env.Json env.Value → W → W
  unfolding write_header
  write p w = let w' = write_header 200 w in record w' { written = w'.written ++ p ∷ [] }

  -- Rsp{Msg: err.Error()}
  abbrev pub error_rsp : Text → Rsp
  error_rsp e = record { success = false; msg = e; payload = [] }

  -- what is done with the error of a ServeHTTPFnE
  unfoldable pub report : Outcome × (W × S) → W × S
  report (done, (w, s)) = (w, s)
  report (refused e, (w, s)) = (write (answer_rsp (error_rsp e)) w, s)
  report (panicked, (w, s)) = (record w { aborted = true }, s)

  -- CheckMethod
  unfoldable pub check_method : Text → Handler → Handler
  check_method m f w r s = if r.method == m then f w r s else (write_header 405 w, s)

  -- CheckMethodE
  unfoldable pub check_method_e : Text → HandlerE → Handler
  check_method_e m f w r s =
      if not (r.method == m) then (write_header 405 w, s) else report (f w r s)

  -- TryParseJSON
  unfoldable pub try_parse_json : Text → Parsed env.Json
  try_parse_json v = elim (env.parse_json v) [ ok jv ↦ parsed jv | err e ↦ raw v ]
