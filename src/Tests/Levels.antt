-- ===== src/Tests/Levels.antt =====
-- A first distribution of three items over two peers.
use hraftd.Common.{
  ℕ, zero, suc, ◌+◌, ◌*◌, ◌<◌, ◌≡◌, ◌≢◌, ◌∙◌, sym, refl, some, List, [], ◌∷◌, arith, get_elem?,
}
use hraftd.Common.Text.{Text, lit, ◌==◌, ne_of_test}
use hraftd.Address.{NodeId}
use hraftd.Model.{Peer}
use hraftd.Distributor.{new_distributor, distribute}
use hraftd.Distributor.Balance.{given}
use hraftd.Distributor.Levels.{IsApart, level, distribute-level}

abbrev peer : Text → Peer
peer id = record { address = []; id = id; state = []; suffrage = [] }

abbrev peers : List Peer
peers = peer (lit "1") ∷ peer (lit "2") ∷ []

abbrev items : List Text
items = lit "a" ∷ lit "b" ∷ lit "c" ∷ []

abbrev assign : NodeId → Text → NodeId × Text
assign n i = (n, i)

apart : lit "1" ≢ lit "2"
apart = ne_of_test (lit "1") (lit "2") (unfold ◌==◌ in refl)

peers-IsApart : IsApart peers
peers-IsApart zero zero p p' at at' same = refl
peers-IsApart zero (suc zero) p p' at at' same =
    let e : lit "1" ≡ p.id = cc in let e' : p'.id ≡ lit "2" = cc in absurd (apart (e ∙ same ∙ e'))
peers-IsApart (suc zero) zero p p' at at' same =
    let e : lit "1" ≡ p'.id = cc in
    let e' : p.id ≡ lit "2" = cc in absurd (apart (e ∙ sym same ∙ e'))
peers-IsApart (suc zero) (suc zero) p p' at at' same = refl
peers-IsApart zero (suc (suc j)) p p' at at' same = cc
peers-IsApart (suc (suc i)) j p p' at at' same = cc
peers-IsApart (suc zero) (suc (suc j)) p p' at at' same = cc

distribute-level_example :
    (results : List (NodeId × Text)) × ((distribute
        (λ (i : Text). i)
        assign
        peers
        items
        new_distributor).0
      ≡ some results)
    × ((q s : ℕ) × (s < 2)
        × (3 ≡ q * 2 + s)
        × ((j : ℕ) (p : Peer)
            → get_elem? peers j ≡ some p
            → given (λ (i : Text). i) assign (λ (o : NodeId × Text). o.0) (λ n i. refl) p.id results
              ≡ level q s j))
distribute-level_example =
    distribute-level (λ (i : Text). i) assign (λ (o : NodeId × Text). o.0) (λ n i. refl) peers items
      (omega arith) peers-IsApart
