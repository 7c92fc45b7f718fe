-- ===== src/Tests/Bridge.antt =====
-- A tick of the bridge whose backend drives straight on.
use closed_loop_bench.Base.{◌≡◌, refl}
use closed_loop_bench.Base.Outcome.{ok}
use closed_loop_bench.Json.{pos}
use closed_loop_bench.Driver.Safe.{IsSafe}
use closed_loop_bench.Bridge.{Result, published, bridge_tick}
use closed_loop_bench.Bridge.FailClosed.{bridge_tick-IsSafe}
use closed_loop_bench.Tests.Sample.{floats}
use closed_loop_bench.Tests.Driver.{steering, straight_converts, ordered}
use closed_loop_bench.Tests.Observation.{received, aggregator_or}

bridge_tick-IsSafe_example :
    (r : Result floats) × (bridge_tick floats
        (aggregator_or (received (pos 7)))
        (steering (pos 0))
        (pos 42)
      ≡ ok r)
    × IsSafe floats (published floats r)
unfolding received
bridge_tick-IsSafe_example =
    bridge_tick-IsSafe floats (aggregator_or (received (pos 7))) (steering (pos 0)) (pos 42) ordered
      straight_converts refl
