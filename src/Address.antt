-- ===== src/Address.antt =====
-- Addresses and node identities: `BindAddr` and `NodeID` of arg.go, the small string functions of
-- util.go, and `net.SplitHostPort` of the Go library, on which they rest. A node ID is the text
-- "httpHost:httpPort,raftHost:raftPort".
pub mod Split
pub mod Identity
use hraftd.Common.{
  ℕ, Bool, true, false, ◌||◌, Option, none, some, List, [], ◌∷◌, ◌++◌, eqb, if◌then◌else◌,
}
use hraftd.Common.Text.{Text, lit, ◌==◌, trim_prefix, split}
use hraftd.Common.Result.{Result, ok, err, ◌>>=?◌}

abbrev pub colon : ℕ
colon = b':'

abbrev pub comma : ℕ
comma = b','

-- strings.IndexByte(s, c) >= 0
unfoldable pub contains : ℕ → Text → Bool
contains c [] = false
contains c (b ∷ s) = eqb b c || contains c s

abbrev shift : ℕ → Option (Text × Text) → Option (Text × Text)
shift b none = none
shift b (some (x, y)) = some ((b ∷ x), y)

-- The text before and behind the first `c`.
unfoldable pub cut_first : ℕ → Text → Option (Text × Text)
cut_first c [] = none
cut_first c (b ∷ s) = if eqb b c then some ([], s) else shift b (cut_first c s)

-- The text before and behind the last `c`.
unfoldable pub cut_last : ℕ → Text → Option (Text × Text)
cut_last c [] = none
cut_last c (b ∷ s) =
    if contains c s then shift b (cut_last c s) else if eqb b c then some ([], s) else none

-- The errors of net.SplitHostPort, in the order in which it looks for them.
abbrev pub missing_port : Text
missing_port = lit "missing port in address"

abbrev pub too_many_colons : Text
too_many_colons = lit "too many colons in address"

abbrev pub missing_bracket : Text
missing_bracket = lit "missing ']' in address"

abbrev pub unexpected_open : Text
unexpected_open = lit "unexpected '[' in address"

abbrev pub unexpected_close : Text
unexpected_close = lit "unexpected ']' in address"

-- "[host" has been read, up to the first "]"; what follows must be ":port".
unfoldable pub after_bracket : Text → Text → Result (Text × Text)
after_bracket host [] = err missing_port
after_bracket host (c ∷ port) =
    if eqb c colon
    then (if contains colon port
        then err too_many_colons
        else if contains b'[' host || contains b'[' port
        then err unexpected_open
        else if contains b']' port
        then err unexpected_close
        else ok (host, port))
    else err missing_port

unfoldable pub bracketed : Text → Result (Text × Text)
bracketed rest = elim (cut_first b']' rest) [
  | none ↦ err missing_bracket
  | some (host, after) ↦ after_bracket host after
]

unfoldable pub plain : Text → Text → Result (Text × Text)
plain host port =
    if contains colon host
    then err too_many_colons
    else if contains b'[' host || contains b'[' port
    then err unexpected_open
    else if contains b']' host || contains b']' port
    then err unexpected_close
    else ok (host, port)

-- The text has a colon, the last one between `host` and `port`.
unfoldable pub split_at : Text → Text → Text → Result (Text × Text)
split_at [] host port = plain host port
split_at (c ∷ s) host port = if eqb c b'[' then bracketed s else plain host port

-- net.SplitHostPort
unfoldable pub split_host_port : Text → Result (Text × Text)
split_host_port s = elim (cut_last colon s) [
  | none ↦ err missing_port
  | some (host, port) ↦ split_at s host port
]

-- host, _, _ := net.SplitHostPort(s): an error leaves both texts empty
unfoldable pub host_of : Text → Text
host_of s = elim (split_host_port s) [ ok (host, port) ↦ host | err e ↦ [] ]

unfoldable pub port_of : Text → Text
port_of s = elim (split_host_port s) [ ok (host, port) ↦ port | err e ↦ [] ]

-- fmt.Sprintf("%s:%s", host, port)
abbrev pub host_port : Text → Text → Text
host_port host port = host ++ colon ∷ port

-- EmptyThen
unfoldable pub empty_then : Text → Text → Text
empty_then s t = if s == [] then t else s

-- EqualsThen
unfoldable pub equals_then : Text → Text → Text → Text
equals_then s e t = if s == e then t else s

-- If
unfoldable pub choose : Bool → Text → Text → Text
choose i s t = if i then s else t

abbrev pub raft_path : Text
raft_path = lit "/hraftd/raft"

abbrev pub key_path : Text
key_path = lit "/hraftd/key"

abbrev pub do_job_path : Text
do_job_path = lit "/hraftd/dojob"

-- BindAddr.URL
unfoldable pub bind_url : Text → Text → Text
bind_url a path =
    lit "http://" ++ (host_of a ++ colon ∷ (port_of a ++ b'/' ∷ trim_prefix path (lit "/")))

-- BindAddr.URLRaftJoin
unfoldable pub bind_url_raft_join : Text → Text
bind_url_raft_join a = bind_url a (raft_path ++ lit "/join")

abbrev pub NodeId : Type 0
NodeId = Text

abbrev first_part : List Text → Text
first_part [] = []
first_part (part ∷ parts) = part

-- Index 1 of a slice that may be too short.
abbrev second_part : List Text → Option Text
second_part [] = none
second_part (part ∷ []) = none
second_part (part ∷ next ∷ parts) = some next

-- NodeID.HTTPAddr
unfoldable pub http_addr : NodeId → Text
http_addr r = first_part (split comma r)

-- NodeID.RaftAddr, which panics on an ID without a comma
unfoldable pub raft_addr : NodeId → Option Text
raft_addr r = second_part (split comma r)

-- fmt.Sprintf("%s:%s,%s:%s", host, hPort, host, rPort)
abbrev pub full_id : Text → Text → Text → NodeId
full_id host h_port r_port = host_port host h_port ++ comma ∷ host_port host r_port

-- NodeID.Fix
unfoldable pub fix : Text → NodeId → Option NodeId
fix host r = raft_addr r >>=? λ addr. some (full_id host (port_of (http_addr r)) (port_of addr))

-- NodeID.URL and the three addresses made from it
unfoldable pub url : NodeId → Text → Text
url r relative_path = bind_url (http_addr r) relative_path

unfoldable pub url_raft_cluster : NodeId → Text
url_raft_cluster r = url r (raft_path ++ lit "/cluster")

unfoldable pub url_raft_state : NodeId → Text
url_raft_state r = url r (raft_path ++ lit "/state")

unfoldable pub url_raft_join : NodeId → Text
url_raft_join r = url r (raft_path ++ lit "/join")
