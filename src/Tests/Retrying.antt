-- ===== src/Tests/Retrying.antt =====
-- The retry loop, its policy, and the window of events on small inputs.
use idm_mw.Prelude.{ℕ, ◌+◌, ◌*◌, ◌^◌, ◌≤◌, ◌≡◌, refl, false, true, min, arith}
use idm_mw.Effects.{Exec}
use idm_mw.Core.World.{World, Sample, EventStatus}
use idm_mw.Core.Retry.{RetryOptions, calculate_delay, execute}
use idm_mw.Core.Retry.Delay.{calculate_delay_bounds}
use idm_mw.Core.Retry.Loop.{Run, execute-Run}
use idm_mw.Core.Retry.Cost.{IsPrompt, clock-execute-le}
use idm_mw.Connectors.{ConnectorResult, on_target}
use idm_mw.Core.Processing.{to_connector}
use idm_mw.Tests.Fixtures.{start, refused, create_user}

abbrev options : RetryOptions
options = record { max_retries = 2; base_delay_ms = 100; max_delay_ms = 300; jitter = true }

abbrev failing_call : Exec (World ℕ) ConnectorResult
failing_call = on_target (refused (to_connector create_user))

calculate_delay_bounds_example :
    (calculate_delay 1 options 7 ≤ min (100 * 2 ^ 1) 300)
    × (min (100 * 2 ^ 1) 300 ≤ 2 * calculate_delay 1 options 7 + 1)
    × (calculate_delay 1 (record options { jitter = false }) 7 ≡ min (100 * 2 ^ 1) 300)
calculate_delay_bounds_example = calculate_delay_bounds 1 options 7 (omega arith)

execute-Run_example :
    Run failing_call options 0 start
      (execute failing_call options start).0
      (execute failing_call options start).1
execute-Run_example = execute-Run failing_call options start

failing_call-IsPrompt : IsPrompt failing_call 20
failing_call-IsPrompt = record { time = λ w. omega arith; dice = λ w. refl }

clock-execute-le_example :
    (execute failing_call options start).1.clock ≤ 1000000 + (2 * (20 + 300) + 20)
clock-execute-le_example = clock-execute-le failing_call options 20 start failing_call-IsPrompt tt

abbrev sample : ℕ → EventStatus → Sample
sample at status = record { timestamp = at; status = status; target_system = "directory" }
