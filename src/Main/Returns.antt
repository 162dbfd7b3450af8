-- ===== src/Main/Returns.antt =====
-- A round of main (app/src/main.c) in the build without pass prediction comes to its end, whatever the
-- network core answers.
use hubble_reference_thingy.Common.{ℕ, ◌+◌, ◌*◌, ◌/◌, ◌≤◌, ◌<◌, ◌≡◌, true, false, List, ◌∷◌}
use hubble_reference_thingy.Config.{Config}
use hubble_reference_thingy.App.{AppEnv, AppWorld, Pass, hubble_time_get}
use hubble_reference_thingy.Sat.Queue.{drop_started}
use hubble_reference_thingy.Sat.Table.{IsTable, pending}
use hubble_reference_thingy.Sat.Schedule.{ms_per_s}
use hubble_reference_thingy.Sat.Schedule.Finds.{sat_schedule-Finds}
use hubble_reference_thingy.Sat.Window.{sends, IsClock, OthersKeepInterval}
use hubble_reference_thingy.Main.Transmits.{IsPrompt}
use hubble_reference_thingy.Main.Serves.{OthersKeepPass, main_round_ends}
use hubble_reference_thingy.Main.Waits.{hangs, WaitsReturn, main_round-hangs}
use hubble_reference_thingy.Main.Loop.{main_round}

-- In the build without pass prediction, a round of main that finds a pass in a well-formed table comes
-- to its end, with any results of the network core's and the SDK's calls: no loop of it runs out of
-- fuel, no wait without a timeout lasts for ever, and it sends at most `n` packets, if `n` intervals
-- between packets are longer than that pass and the fuel is more than `n`. The wait for the timer is
-- taken to return where the timer was started or the semaphore given, `radio_mutex` to be given back
-- by whoever holds it, and the network core to bind the endpoint when main waits for that. The clock
-- goes on, two readings in a row are less than a second apart, and sleeps take their time; the other
-- threads leave the current pass and the interval alone, but may register passes.
pub main_round_returns :
    (c : Config) (env : AppEnv) (p : Pass) (ps : List Pass) (fuel n : ℕ) (w : AppWorld)
    → c.pass_prediction ≡ false
    → WaitsReturn env
    → IsClock env
    → IsPrompt env
    → OthersKeepInterval env
    → OthersKeepPass env
    → IsTable w.state.sat
    → drop_started (env.val w.trace hubble_time_get / ms_per_s) (pending w.state.sat) ≡ p ∷ ps
    → p.duration < n * w.state.sat.retransmission_s
    → n < fuel
    → let (complete, w') = main_round c env fuel w in
      (complete ≡ true)
      × (hangs env w'.trace ≡ hangs env w.trace)
      × (sends w'.trace ≤ sends w.trace + n)
main_round_returns c env p ps fuel n w off waits clock on_time keep others v found last enough =
    let (complete, few) =
      main_round_ends c env off clock on_time keep others p ps fuel n w v found last enough in
    let scheduled = (sat_schedule-Finds c env fuel w off v found).result in
    (complete, main_round-hangs c env waits fuel w scheduled, few)
