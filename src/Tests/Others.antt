-- ===== src/Tests/Others.antt =====
-- Distribution of items.
use mathlib.Core.List.{Perm}
use hraftd.Common.{◌≡◌, inl, inr, refl, true, none, some, List, [], ◌∷◌, map, arith, All, Any, ◌≢◌}
use hraftd.Common.Text.{Text, lit, ◌==◌}
use hraftd.Common.Result.{ok}
use hraftd.Address.{NodeId}
use hraftd.Model.{Peer, Command}
use hraftd.Distributor.{Distributor, distribute, has_peer}
use hraftd.Distributor.Complete.{distribute-perm}
use hraftd.Distributor.Given.{IsApart}
use hraftd.Distributor.Stays.{distribute-stays}
use hraftd.Dealers.{Dealer, dealer_continue}

abbrev peer : Text → Peer
peer id = record { address = []; id = id; state = []; suffrage = [] }

abbrev peers : List Peer
peers = peer (lit "1") ∷ peer (lit "2") ∷ []

abbrev items : List Text
items = lit "a" ∷ lit "b" ∷ lit "c" ∷ []

abbrev assign : NodeId → Text → NodeId × Text
assign n i = (n, i)

abbrev used : Distributor
used = record { sticky_map = (lit "b", lit "1") ∷ (lit "c", lit "3") ∷ [] }

distribute-perm_example :
    (results : List (NodeId × Text)) × ((distribute (λ (i : Text). i) assign peers items used).0
      ≡ some results)
    × Perm (map (λ (o : NodeId × Text). o.1) results) items
distribute-perm_example =
    distribute-perm (λ (i : Text). i) assign (λ (o : NodeId × Text). o.1) (λ n i. refl) peers items
      used (omega arith)

-- A dealer that answers with its request.
abbrev echo : Dealer Text Text
echo = record { decode = λ body. ok body; call = λ req. (some req, none) }

abbrev busy : Dealer Text Text
busy = record { decode = λ body. ok body; call = λ req. (none, some dealer_continue) }

abbrev to_busy : Command
to_busy = record { op = lit "set"; key = lit "/busy"; value = lit "1"; time = [] }

items-IsApart : IsApart (λ (i : Text). i) assign items
unfolding ◌==◌
items-IsApart = ((refl, (refl, tt)), ((refl, tt), (tt, tt)))

named : All (λ (p : Peer). p.id ≢ []) peers
named = ((λ e. cc), ((λ e. cc), tt))

distribute-stays_example :
    (results : List (NodeId × Text)) × ((distribute (λ (i : Text). i) assign peers items used).0
      ≡ some results)
    × ((node : NodeId) × Any (λ o. o ≡ (node, lit "c")) results
        × (has_peer node peers ≡ true)
        × ((peers' : List Peer) (items' : List Text)
            → Any (λ i. i ≡ lit "c") items'
            → has_peer node peers' ≡ true
            → let d' = (distribute (λ (i : Text). i) assign peers items used).1 in
              (results' : List (NodeId × Text)) × ((distribute
                  (λ (i : Text). i)
                  assign
                  peers'
                  items'
                  d').0
                ≡ some results')
              × Any (λ o. o ≡ (node, lit "c")) results'))
distribute-stays_example =
    distribute-stays (λ (i : Text). i) assign (λ (o : NodeId × Text). o.1) (λ n i. refl) peers items
      used (lit "c") (omega arith) named items-IsApart (inr (inr (inl refl)))
