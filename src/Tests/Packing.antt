-- ===== src/Tests/Packing.antt =====
-- A text form of lists of texts: each text is closed by a zero. It stands in for JSON in the tests.
use hraftd.Common.{
  Bool, true, false, ℕ, zero, suc, ◌≡◌, refl, ap, ◌∙◌, none, some, List, [], ◌∷◌, ◌++◌, map,
}
use hraftd.Common.Text.{Text}
use hraftd.Common.Map.{Map}
use hraftd.Model.{Peer, no_peer, RaftCluster, JoinRequest, Rsp, Command}
use hraftd.World.{WithError, Codec, Codecs, ConfigEntry, IsJson}

abbrev pub pack : List Text → Text
pack [] = []
pack (t ∷ ts) = map suc t ++ zero ∷ pack ts

abbrev extend : ℕ → List Text → List Text
extend n [] = (n ∷ []) ∷ []
extend n (t ∷ ts) = (n ∷ t) ∷ ts

abbrev pub unpack : Text → List Text
unpack [] = []
unpack (zero ∷ s) = [] ∷ unpack s
unpack (suc n ∷ s) = extend n (unpack s)

unpack-text : (t s : Text) → unpack (map suc t ++ zero ∷ s) ≡ t ∷ unpack s
unpack-text [] s = refl
unpack-text (n ∷ t) s = ap (extend n) (unpack-text t s)

pub unpack-pack : (ts : List Text) → unpack (pack ts) ≡ ts
unpack-pack [] = refl
unpack-pack (t ∷ ts) = unpack-text t (pack ts) ∙ ap (◌∷◌ t) (unpack-pack ts)

abbrev bad : Text
bad = b'?' ∷ []

-- A codec from a way to list the texts of a value and to read them again.
abbrev codec_of : {A : Type 0} → (A → List Text) → (List Text → WithError A) → Codec A
codec_of texts read = record {
  encode = λ a. pack (texts a);
  decode = λ s. read (unpack s);
  decode_first = λ s. read (unpack s);
}

read_back :
    {A : Type 0} (texts : A → List Text) (read : List Text → WithError A) (a : A)
    → read (texts a) ≡ (a, none)
    → read (unpack (pack (texts a))) ≡ (a, none)
read_back texts read a h = ap read (unpack-pack (texts a)) ∙ h

abbrev command_texts : Command → List Text
command_texts c = c.op ∷ c.key ∷ c.value ∷ c.time ∷ []

abbrev no_command : Command
no_command = record { op = []; key = []; value = []; time = [] }

abbrev read_command : List Text → WithError Command
read_command (op ∷ key ∷ value ∷ time ∷ []) =
    (record { op = op; key = key; value = value; time = time }, none)
read_command _ = (no_command, some bad)

abbrev entries_texts : List ConfigEntry → List Text
entries_texts [] = []
entries_texts (e ∷ es) = e.id ∷ e.address ∷ e.suffrage ∷ entries_texts es

abbrev read_entries : List Text → List ConfigEntry
read_entries (i ∷ a ∷ s ∷ ts) = record { id = i; address = a; suffrage = s } ∷ read_entries ts
read_entries _ = []

abbrev peers_texts : List Peer → List Text
peers_texts [] = []
peers_texts (p ∷ ps) = p.address ∷ p.id ∷ p.state ∷ p.suffrage ∷ peers_texts ps

abbrev read_peers : List Text → List Peer
read_peers (a ∷ i ∷ s ∷ f ∷ ts) =
    record { address = a; id = i; state = s; suffrage = f } ∷ read_peers ts
read_peers _ = []

abbrev read_cluster : List Peer → WithError RaftCluster
read_cluster (current ∷ leader ∷ servers) =
    (record { current = current; leader = leader; servers = servers }, none)
read_cluster _ = (record { current = no_peer; leader = no_peer; servers = [] }, some bad)

abbrev map_texts : Map Text → List Text
map_texts [] = []
map_texts ((k, v) ∷ m) = k ∷ v ∷ map_texts m

abbrev read_map : List Text → Map Text
read_map (k ∷ v ∷ ts) = (k, v) ∷ read_map ts
read_map _ = []

abbrev flag : Bool → Text
flag true = b'T' ∷ []
flag false = []

abbrev read_flag : Text → Bool
read_flag [] = false
read_flag (n ∷ t) = true

abbrev read_rsp : List Text → WithError Rsp
read_rsp (s ∷ m ∷ d ∷ []) = (record { success = read_flag s; msg = m; payload = d }, none)
read_rsp _ = (record { success = false; msg = []; payload = [] }, some bad)

abbrev read_join : List Text → WithError JoinRequest
read_join (a ∷ i ∷ []) = (record { addr = a; node_id = i }, none)
read_join _ = (record { addr = []; node_id = [] }, some bad)

abbrev pub packing : Codecs
packing = record {
  command = codec_of command_texts read_command;
  entries = codec_of entries_texts (λ ts. (read_entries ts, none));
  cluster =
      codec_of (λ c. peers_texts (c.current ∷ c.leader ∷ c.servers))
        (λ ts. read_cluster (read_peers ts));
  rsp = codec_of (λ r. flag r.success ∷ r.msg ∷ r.payload ∷ []) read_rsp;
  join_request = codec_of (λ r. r.addr ∷ r.node_id ∷ []) read_join;
  text_map = codec_of map_texts (λ ts. (read_map ts, none));
}

entries_again : (es : List ConfigEntry) → read_entries (entries_texts es) ≡ es
entries_again [] = refl
entries_again (e ∷ es) = ap (◌∷◌ e) (entries_again es)

map_again : (m : Map Text) → read_map (map_texts m) ≡ m
map_again [] = refl
map_again ((k, v) ∷ m) = ap (◌∷◌ (k, v)) (map_again m)

pub packing-IsJson : IsJson packing
packing-IsJson = record {
  of_command = λ a texts. read_back command_texts read_command a refl;
  of_entries = λ a texts.
      read_back entries_texts (λ ts. (read_entries ts, none)) a
        (ap (λ es. (es, none)) (entries_again a));
  of_map = λ a d texts. (
    a,
    read_back map_texts (λ ts. (read_map ts, none)) a (ap (λ m. (m, none)) (map_again a)),
    d,
    λ k. refl,
  );
}
