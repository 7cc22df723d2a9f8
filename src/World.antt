-- ===== src/World.antt =====
-- What the program uses and does not implement: the JSON library, the clock and the text form of
-- times, and the node's surroundings, that is the raft library, the file peers.json and the HTTP
-- client. Each is a record of operations; what the program relies on is a record of laws beside it.
-- An operation that acts on the surroundings returns their new state. Reads return what the state
-- says: between two calls of one operation the surroundings change only by those calls.
use hraftd.Common.{ℕ, ◌-◌, ◌%◌, ◌≡◌, ◌≢◌, ◌⊎◌, ◌↔◌, Bool, Option, none, List, Any, All}
use hraftd.Common.Utf8.{IsUtf8, IsUtf8Map}
use hraftd.Common.Text.{Text}
use hraftd.Common.Result.{Result, ok}
use hraftd.Common.Map.{Map, lookup, Distinct}
use hraftd.Http.{HttpRequest}
use hraftd.Model.{RaftCluster, JoinRequest, Rsp, Command}

-- A value that an operation leaves, and the error beside it, if any.
abbrev pub WithError : Type 0 → Type 0
WithError A = A × Option Text

-- raft.ServerSuffrage
pub data Suffrage : Type 0 where
  voter nonvoter staging : Suffrage

-- raft.Server
pub record Server : Type 0 where
  pub suffrage : Suffrage
  pub id : Text
  pub address : Text

-- ConfigEntry of store.go: a server as peers.json holds it
pub record ConfigEntry : Type 0 where
  pub id : Text
  pub address : Text
  pub suffrage : Text

-- Marshal, Unmarshal and Decoder.Decode at one type: `decode_first` reads the first value of a stream,
-- whatever follows. A failing read leaves what it had read so far.
pub record Codec (A : Type 0) : Type 0 where
  pub encode : A → Text
  pub decode : Text → WithError A
  pub decode_first : Text → WithError A

pub record Codecs : Type 0 where
  pub command : Codec Command
  pub entries : Codec (List ConfigEntry)
  pub cluster : Codec RaftCluster
  pub rsp : Codec Rsp
  pub join_request : Codec JoinRequest
  pub text_map : Codec (Map Text)

abbrev pub IsUtf8Command : Command → Type 0
IsUtf8Command c = IsUtf8 c.op × IsUtf8 c.key × IsUtf8 c.value × IsUtf8 c.time

abbrev pub IsUtf8Entry : ConfigEntry → Type 0
IsUtf8Entry e = IsUtf8 e.id × IsUtf8 e.address × IsUtf8 e.suffrage

-- What is encoded is decoded again where its texts are UTF-8, a map up to the order of its entries. Of
-- other texts nothing is said: JSON has a replacement for bytes that are not UTF-8.
pub record IsJson (c : Codecs) : Type 0 where
  pub of_command :
      (a : Command) → IsUtf8Command a → c.command.decode (c.command.encode a) ≡ (a, none)
  pub of_entries :
      (a : List ConfigEntry) → All IsUtf8Entry a → c.entries.decode (c.entries.encode a) ≡ (a, none)
  pub of_map :
      (a : Map Text)
      → Distinct a
      → IsUtf8Map a
      → (b : Map Text) × (c.text_map.decode_first (c.text_map.encode a) ≡ (b, none))
        × Distinct b
        × ((k : Text) → lookup k b ≡ lookup k a)

-- Times are numbers of nanoseconds, of an instant or of what a wall clock shows at it.
-- `format` and `parse` are `time.Format` and `time.Parse` with the layout of util.go.
pub record Clock : Type 0 where
  pub wall : ℕ → ℕ
  pub format : ℕ → Text
  pub parse : Text → Result ℕ

-- The layout has milliseconds: what is below is cut off. A formatted time is UTF-8.
pub record IsClock (c : Clock) : Type 0 where
  pub parse-format : (t : ℕ) → c.parse (c.format t) ≡ ok (t - t % 1_000_000)
  pub text : (t : ℕ) → IsUtf8 (c.format t)

pub record World : Type 1 where
  pub State : Type 0
  -- s.raft.State() == raft.Leader, s.raft.State().String(), raft.Leader.String(), s.raft.Leader()
  pub is_leader : State → Bool
  pub node_state : State → Text
  pub leader_name : Text
  pub leader_addr : State → Text
  pub suffrage_name : Suffrage → Text
  -- s.raft.GetConfiguration(): its error or its servers
  pub configuration : State → Result (List Server)
  -- s.raft.RemoveServer, AddVoter and Apply, and the error of the future that they return
  pub remove_server : Text → State → Option Text × State
  pub add_voter : Text → Text → State → Option Text × State
  pub raft_apply : Text → State → Option Text × State
  -- the content of peers.json in the node's directory
  pub write_peers : Text → State → Option Text × State
  pub read_peers : State → Result Text
  -- s.raft.LastIndex() and AppliedIndex()
  pub last_index : State → ℕ
  pub applied_index : State → ℕ
  -- s.raft.Stats()
  pub stats : State → Map Text
  -- what a reverse proxy gets for the request that its director made: a status and a body, which are
  -- 502 and nothing where there is no answer
  pub round_trip : HttpRequest → State → (ℕ × Text) × State
  -- client.Get(url) and client.Post(url, body): the status and the body that come back
  pub http_get : Text → State → Result Text × State
  pub http_post : Text → Text → State → Result (ℕ × Text) × State

abbrev pub IsIn : Server → List Server → Type 0
IsIn x = Any (λ y. y ≡ x)

-- No two servers of a configuration share an ID or an address.
abbrev pub IsUnique : List Server → Type 0
IsUnique l = (x y : Server) → IsIn x l → IsIn y l → (x.id ≡ y.id) ⊎ (x.address ≡ y.address) → x ≡ y

-- The documented effect of the calls that change the membership, where they succeed; that other calls
-- do not change it.
pub record IsRaft (w : World) : Type 0 where
  pub unique : (s : w.State) (l : List Server) → w.configuration s ≡ ok l → IsUnique l
  pub removed :
      (id : Text) (s s' : w.State) (l : List Server)
      → w.configuration s ≡ ok l
      → w.remove_server id s ≡ (none, s')
      → (l' : List Server) × (w.configuration s' ≡ ok l')
        × ((x : Server) → IsIn x l' ↔ (IsIn x l × (x.id ≢ id)))
  pub added :
      (id address : Text) (s s' : w.State) (l : List Server)
      → w.configuration s ≡ ok l
      → w.add_voter id address s ≡ (none, s')
      → (l' : List Server) × (w.configuration s' ≡ ok l')
        × ((x : Server)
            → IsIn x l' ↔ (
                (x ≡ record { suffrage = voter; id = id; address = address })
                ⊎ (IsIn x l × (x.id ≢ id))))
  pub written :
      (content : Text) (s : w.State)
      → w.configuration (w.write_peers content s).1 ≡ w.configuration s
  pub proposed :
      (entry : Text) (s : w.State) → w.configuration (w.raft_apply entry s).1 ≡ w.configuration s
  pub asked : (url : Text) (s : w.State) → w.configuration (w.http_get url s).1 ≡ w.configuration s
