-- ===== src/Store/Recovered.antt =====
-- What a node remembers of its cluster when it starts again (store.go): `writeConfigEntries` and
-- `ReadPeersJSON`.
use hraftd.Common.{◌≡◌, refl, sym, ap, ◌∙◌, none, List, [], ◌∷◌, map, All}
use hraftd.Common.Text.{Text, lit, ◌==◌}
use hraftd.Common.Result.{ok, value_or}
use hraftd.World.{Suffrage, voter, nonvoter, staging, Server, World, IsUtf8Entry, IsJson}
use hraftd.Common.Utf8.{IsUtf8}
use hraftd.Env.{Env}
use hraftd.Store.PeersFile.{
  parse_suffrage, entry_of, server_of, write_peers_json, write_config_entries, servers_of,
  read_peers_json,
}

-- The names of the suffrages, and that a file that was written is read as it was written.
pub record IsPeersFile (w : World) : Type 0 where
  pub voter_name : w.suffrage_name voter ≡ lit "Voter"
  pub nonvoter_name : w.suffrage_name nonvoter ≡ lit "Nonvoter"
  pub staging_name : w.suffrage_name staging ≡ lit "Staging"
  pub read_written :
      (content : Text) (s s' : w.State)
      → w.write_peers content s ≡ (none, s')
      → w.read_peers s' ≡ ok content

abbrev pub IsUtf8Server : Server → Type 0
IsUtf8Server x = IsUtf8 x.id × IsUtf8 x.address

module _ (env : Env) (json : IsJson env.codecs) (file : IsPeersFile env.world) where
  open env use {world, codecs}

  parse_suffrage-name : (x : Suffrage) → parse_suffrage (world.suffrage_name x) ≡ x
  unfolding parse_suffrage ◌==◌
  parse_suffrage-name voter = rw file.voter_name refl
  parse_suffrage-name nonvoter = rw file.nonvoter_name refl
  parse_suffrage-name staging = rw file.staging_name refl

  server_of-entry_of : (x : Server) → server_of env (entry_of env x) ≡ x
  server_of-entry_of x =
      ap (λ v. record { suffrage = v; id = x.id; address = x.address })
        (parse_suffrage-name x.suffrage)

  servers_of-entries : (l : List Server) → map (server_of env) (map (entry_of env) l) ≡ l
  servers_of-entries [] = refl
  servers_of-entries (x ∷ l) = rw (server_of-entry_of x, servers_of-entries l) refl

  suffrage_name-IsUtf8 : (x : Suffrage) → IsUtf8 (world.suffrage_name x)
  suffrage_name-IsUtf8 voter = rw file.voter_name refl
  suffrage_name-IsUtf8 nonvoter = rw file.nonvoter_name refl
  suffrage_name-IsUtf8 staging = rw file.staging_name refl

  entries-IsUtf8 : (l : List Server) → All IsUtf8Server l → All IsUtf8Entry (map (entry_of env) l)
  entries-IsUtf8 [] h = tt
  entries-IsUtf8 (x ∷ l) ((id, address), h) =
      ((id, address, suffrage_name-IsUtf8 x.suffrage), entries-IsUtf8 l h)

  -- If the servers of the configuration, whose IDs and addresses are UTF-8, are written to peers.json without an error, a node that reads
  -- the file then gets the same servers, each with its ID, its address and its suffrage.
  pub read_peers_json-written :
      (l : List Server) (s s' : world.State)
      → world.configuration s ≡ ok l
      → All IsUtf8Server l
      → write_config_entries env s ≡ (none, s')
      → read_peers_json env s' ≡ ok l
  unfolding write_config_entries write_peers_json read_peers_json servers_of
  read_peers_json-written l s s' configured texts written =
      let content = codecs.entries.encode (map (entry_of env) l) in
      let e : world.write_peers content s ≡ (none, s') =
        ap (λ c. world.write_peers (codecs.entries.encode (map (entry_of env) (value_or [] c))) s)
          (sym configured)
        ∙ written in
      let decoded = json.of_entries (map (entry_of env) l) (entries-IsUtf8 l texts) in
      rw (file.read_written content s s' e, read_peers_json, decoded) (ap ok (servers_of-entries l))
