-- ===== src/Tests/Waiting.antt =====
-- Waiting in the small world, for a server to come up.
use hraftd.Common.{none, some, List, [], ◌∷◌, Option}
use hraftd.Common.Text.{lit}
use hraftd.World.{Server, voter}
use hraftd.Store.Waiting.{Event, tick, expired, wait_for_leader, wait_for_applied}
use hraftd.Store.Waits.{LeaderResult, AppliedResult, wait_for_leader-Ends, wait_for_applied-Ends}
use hraftd.Tests.Sample.{sample}

abbrev comes_up : Option Server → Option Server
comes_up s = some (record { suffrage = voter; id = lit "a"; address = lit "10.0.0.2:12000" })

abbrev events : List (Event (Option Server))
events = tick (λ s. s) ∷ tick comes_up ∷ expired ∷ []

wait_for_leader-Ends_example : LeaderResult sample (wait_for_leader sample events none)
wait_for_leader-Ends_example = wait_for_leader-Ends sample events none tt

wait_for_applied-Ends_example :
    AppliedResult sample 5 3 events none (wait_for_applied sample 5 events none)
wait_for_applied-Ends_example = wait_for_applied-Ends sample 5 events none (λ e. tt)
