-- ===== src/Tests/Files.antt =====
-- peers.json, written and read again: the state of the surroundings is the file's content, if any.
use hraftd.Common.{◌≡◌, refl, ap, sym, Option, none, some, List, [], ◌∷◌, All}
use hraftd.Common.Text.{Text, lit}
use hraftd.Common.Result.{Result, ok, err}
use hraftd.World.{Server, voter, nonvoter, World}
use hraftd.Env.{Env}
use hraftd.Store.PeersFile.{write_config_entries, write_peers_json, read_peers_json}
use hraftd.Store.Recovered.{IsUtf8Server, IsPeersFile, read_peers_json-written}
use hraftd.Tests.Packing.{packing-IsJson}
use hraftd.Tests.Sample.{sample, quiet}

abbrev servers : List Server
servers =
    record { suffrage = voter; id = lit "a"; address = lit "10.0.0.1:12000" }
    ∷ record { suffrage = nonvoter; id = lit "b"; address = lit "10.0.0.2:12000" }
    ∷ []

abbrev read_file : Option Text → Result Text
read_file none = err (lit "no such file")
read_file (some content) = ok content

abbrev remembering : World
remembering = record (quiet (Option Text)) {
  configuration = λ s. ok servers;
  write_peers = λ content s. (none, some content);
  read_peers = read_file;
}

remembering-IsPeersFile : IsPeersFile remembering
remembering-IsPeersFile = record {
  voter_name = refl;
  nonvoter_name = refl;
  staging_name = refl;
  read_written = λ content s s' e. ap (λ r. read_file r.1) (sym e);
}

abbrev rememberer : Env
rememberer = record sample { world = remembering }

abbrev written : Option Text
written = (write_config_entries rememberer none).1

servers_texts : All IsUtf8Server servers
servers_texts = ((refl, refl), ((refl, refl), tt))

read_peers_json-written_example : read_peers_json rememberer written ≡ ok servers
unfolding write_config_entries write_peers_json
read_peers_json-written_example =
    read_peers_json-written rememberer packing-IsJson remembering-IsPeersFile servers none written
      refl servers_texts refl
