-- ===== src/Distributor/Tests.antt =====
-- The sequence of calls of distribute_test.go.
use hraftd.Common.{◌≡◌, refl, List, [], ◌∷◌, some, Option}
use hraftd.Common.Text.{Text, lit, ◌==◌}
use hraftd.Common.Int.{◌+ℤ◌}
use hraftd.Common.Map.{lookup, insert}
use hraftd.Address.{NodeId}
use hraftd.Model.{Peer}
use hraftd.Distributor.{
  Distributor, new_distributor, put, has_peer, keys_in, clean_keys_not_in, count, bump, share_out,
  make_peers_map, find_room, sticky_node, keep, place, distribute,
}

distributor : Unit {0}
unfolding ◌==◌ ◌+ℤ◌ lookup insert new_distributor put has_peer keys_in clean_keys_not_in count bump
    share_out make_peers_map find_room sticky_node keep place distribute
distributor = tt

abbrev peer : Text → Peer
peer id = record { address = []; id = id; state = []; suffrage = [] }

abbrev run : List Peer → List Text → Distributor → Option (List (NodeId × Text)) × Distributor
run = distribute (λ (i : Text). i) (λ (n : NodeId) (i : Text). (n, i))

abbrev one_two_three : List Peer
one_two_three = peer (lit "1") ∷ peer (lit "2") ∷ peer (lit "3") ∷ []

abbrev first_items : List Text
first_items = lit "1" ∷ lit "2" ∷ lit "3" ∷ []

spread :
    (run one_two_three first_items new_distributor).0
    ≡ some ((lit "1", lit "1") ∷ (lit "2", lit "2") ∷ (lit "3", lit "3") ∷ [])
unfolding distributor
spread = refl

abbrev after_first : Distributor
after_first = (run one_two_three first_items new_distributor).1

sticky :
    (run one_two_three (lit "1" ∷ lit "7" ∷ lit "3" ∷ lit "4" ∷ []) after_first).0
    ≡ some ((lit "1", lit "1") ∷ (lit "3", lit "3") ∷ (lit "1", lit "7") ∷ (lit "2", lit "4") ∷ [])
unfolding distributor
sticky = refl

no_peers : (run [] first_items after_first).0 ≡ Option.none
unfolding distributor
no_peers = refl
