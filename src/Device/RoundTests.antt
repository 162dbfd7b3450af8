-- ===== src/Device/RoundTests.antt =====
-- The theorem on the rounds of main at a concrete input: two passes, four seconds apart.
use hubble_reference_thingy.Common.{◌≡◌, refl, ap, ◌∙◌, true, [], ◌∷◌, replicate, arith}
use hubble_reference_thingy.App.{AppEnv, AppWorld, Pass, Sat, hubble_time_get}
use hubble_reference_thingy.App.Examples.{table_config, fresh, fresh_sat}
use hubble_reference_thingy.Sat.Passes.{
  no_pass, next_in_table, sat_pass_add, sat_transmission_time_get,
}
use hubble_reference_thingy.Sat.Schedule.{schedule_from_table, sat_schedule_next_transmission}
use hubble_reference_thingy.Sat.Schedule.Tests.{orbit}
use hubble_reference_thingy.Sat.Payload.{payload_get}
use hubble_reference_thingy.Sat.Transmit.{
  send_while_open, send_in_window, finish_transmit, send_packet, transmit_packet, sat_transmit,
}
use hubble_reference_thingy.Sat.Window.{IsClock, OthersKeepInterval}
use hubble_reference_thingy.Drivers.Led.{led_blink_start, led_blink_stop}
use hubble_reference_thingy.Ble.Advertise.{ble_init, ble_adv_start, ble_adv_stop}
use hubble_reference_thingy.Ble.Switch.{
  start_advertising, bring_up, enable_locked, ble_enable, ble_disable,
}
use hubble_reference_thingy.Ble.Write.{le_value, add_entries, set_ephemeris, chr_write_cb}
use hubble_reference_thingy.Shell.Status.{cmd_status}
use hubble_reference_thingy.Main.Network.{sat_enable, sat_disable}
use hubble_reference_thingy.Ipc.{ipc_send}
use hubble_reference_thingy.Main.Loop.{satellite_session, end_round, round_after, main_round}
use hubble_reference_thingy.Main.Transmits.{IsPrompt}
use hubble_reference_thingy.Main.Serves.{OthersKeepPass, Succeeds}
use hubble_reference_thingy.Main.Waits.{WaitsReturn}
use hubble_reference_thingy.Main.Rounds.{rounds, HasPasses, OthersKeepPasses, ServePasses}
use hubble_reference_thingy.Device.Interleaved.{interleaved}
use hubble_reference_thingy.Device.Tests.{meddling, meddling-AreSteady}
use hubble_reference_thingy.Device.Transmitted.{written_to, ephemeris_transmitted}
use hubble_reference_thingy.Device.EveryPass.{rounds_serve_interleaved}

abbrev soon : Pass
soon = record { timestamp = 1000000002; duration = 3 }

abbrev later : Pass
later = record { timestamp = 1000000006; duration = 4 }

abbrev two_soon : Sat
two_soon = record fresh_sat { passes = soon ∷ later ∷ replicate 298 no_pass; count = 2 }

abbrev before_two : AppWorld
before_two = record { state = record fresh { sat = two_soon }; trace = [] }

abbrev clear : AppEnv
clear = orbit []

clear-IsClock : IsClock clear
clear-IsClock = record { mono = λ tr k. ground arith; sleeps = λ tr s. omega arith }

clear-IsPrompt : IsPrompt clear
clear-IsPrompt = record { prompt = λ tr. omega arith }

clear-OthersKeepInterval : OthersKeepInterval clear
clear-OthersKeepInterval = record { keep = λ tr k a. refl }

clear-OthersKeepPass : OthersKeepPass clear
clear-OthersKeepPass = record { keep = λ tr k a p q h. h }

clear-OthersKeepPasses : OthersKeepPasses clear
clear-OthersKeepPasses = record { keep = λ tr k a ps q h. h }

clear-Succeeds : Succeeds clear
clear-Succeeds = record {
  opens = λ tr. refl;
  registers = λ tr. refl;
  posts = λ tr m. refl;
  answers = λ tr. refl;
  packets = λ tr payload len. refl;
}

clear-WaitsReturn : WaitsReturn clear
clear-WaitsReturn = record { wakes = λ tr h. refl; locked = λ tr. refl; bound = λ tr. refl }

before_two-HasPasses : HasPasses (soon ∷ later ∷ []) 5 two_soon
before_two-HasPasses = record {
  table = record { array = refl; idx_in = omega arith; count_in = omega arith };
  more = [];
  waiting = refl;
  interval = refl;
}

abbrev meddled : AppEnv
meddled = interleaved table_config clear meddling 1

-- a round takes the interval of five seconds
second_time :
    meddled.val (main_round table_config meddled 2 before_two).1.trace hubble_time_get
    ≡ 1000000005000
unfolding main_round round_after sat_schedule_next_transmission schedule_from_table next_in_table
    end_round satellite_session sat_enable sat_disable ipc_send sat_transmit transmit_packet
    finish_transmit send_packet send_in_window send_while_open sat_transmission_time_get payload_get
    led_blink_start led_blink_stop ble_enable enable_locked bring_up start_advertising ble_init
    ble_adv_start ble_disable ble_adv_stop cmd_status chr_write_cb set_ephemeris add_entries
    le_value sat_pass_add
second_time = refl

rounds_serve_interleaved_example :
    ((rounds table_config meddled 2 2 before_two).0 ≡ true)
    × ServePasses table_config meddled 2 1 (soon ∷ later ∷ []) before_two
rounds_serve_interleaved_example =
    rounds_serve_interleaved table_config clear meddling 1 (soon ∷ later ∷ []) 5 2 1 before_two refl
      meddling-AreSteady clear-IsClock clear-IsPrompt clear-OthersKeepInterval clear-OthersKeepPass
      clear-OthersKeepPasses clear-Succeeds clear-WaitsReturn before_two-HasPasses
      (omega arith, omega arith, (omega (arith, second_time), omega (arith, second_time), tt))
      (omega arith, omega arith, (omega arith, omega arith, tt)) (omega arith, (omega arith, tt))
      (omega arith)

-- the companion's message with the same passes, when the table is empty
abbrev told : AppWorld
told = written_to table_config meddled (soon ∷ later ∷ []) (record { state = fresh; trace = [] })

told-before_two : told ≡ before_two
unfolding chr_write_cb set_ephemeris add_entries le_value sat_pass_add
told-before_two = refl

told_second_time :
    meddled.val (main_round table_config meddled 2 told).1.trace hubble_time_get ≡ 1000000005000
told_second_time =
    ap (λ w. meddled.val (main_round table_config meddled 2 w).1.trace hubble_time_get)
      told-before_two
    ∙ second_time

told_first_time : meddled.val told.trace hubble_time_get ≡ 1000000000000
unfolding chr_write_cb
told_first_time = refl

ephemeris_transmitted_example :
    ((rounds table_config meddled 2 2 told).0 ≡ true)
    × ServePasses table_config meddled 2 1 (soon ∷ later ∷ []) told
ephemeris_transmitted_example =
    ephemeris_transmitted table_config clear meddling 1 (soon ∷ later ∷ []) 2 1
      (record { state = fresh; trace = [] }) refl meddling-AreSteady clear-IsClock clear-IsPrompt
      clear-OthersKeepInterval clear-OthersKeepPass clear-OthersKeepPasses clear-Succeeds
      clear-WaitsReturn (record { array = refl; idx_in = omega arith; count_in = omega arith }) refl
      (omega arith, omega arith, (omega arith, omega arith, tt)) (omega arith)
      (
        omega arith,
        omega (arith, told_first_time),
        (omega (arith, told_second_time), omega (arith, told_second_time), tt),
      )
      (omega arith, (omega arith, tt)) (omega arith)
