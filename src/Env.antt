-- ===== src/Env.antt =====
-- What a node is started with: its surroundings, the libraries' parameters, and the fields of `Arg`
-- (arg.go) that do not change once the node runs.
use hraftd.Common.{Bool, Option}
use hraftd.Common.Text.{Text}
use hraftd.Common.Result.{Result}
use hraftd.Address.{NodeId}
use hraftd.Model.{Command}
use hraftd.Dealers.{DealerMap, Log}
use hraftd.World.{Codecs, Clock, World}

pub record Env : Type 1 where
  pub Request : Type 0
  pub Value : Type 0
  pub codecs : Codecs
  pub clock : Clock
  pub world : World
  pub interceptor : Option (Log → Command → Bool)
  -- the dealers of the Arg's LogDealer, and those of the Service's DealerMap
  pub log_dealers : DealerMap Request Value
  pub dealers : DealerMap Request Value
  pub node_id : NodeId
  -- the JSON values, and ParseJSON of util.go, which is Unmarshal at the type of any value
  pub Json : Type 0
  pub parse_json : Text → Result Json
  -- gonet.ReadBytes, on what reading the body of a request gives
  pub read_bytes : Result Text → Text
  -- os.Hostname(), goip.MainIP(), and the time at which the program started, as text
  pub hostname : Text
  pub main_ip : Text
  pub start_time : Text
  pub raft_addr : Text
