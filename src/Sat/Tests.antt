-- ===== src/Sat/Tests.antt =====
-- The theorems on app/src/sat_board.c at concrete inputs.
use hubble_reference_thingy.Common.{
  ℕ, ◌≡◌, refl, true, false, some, [], ◌∷◌, arith, if◌then◌else◌, replicate, ◌/◌, ◌++◌,
}
use hubble_reference_thingy.Common.Int.{ℤ, pos, is_zero}
use hubble_reference_thingy.App.{AppWorld, Sat, Pass, hubble_time_get}
use hubble_reference_thingy.App.Examples.{
  table_config, predicted_config, table_config-IsConfig, now_ms, calm, fresh_sat, fresh, started,
}
use hubble_reference_thingy.Sat.Passes.{sat_pass_add, next_in_table, sat_transmission_time_get}
use hubble_reference_thingy.Sat.Queue
use hubble_reference_thingy.Sat.Queue.{drop_started}
use hubble_reference_thingy.Sat.Table.{IsTable, view, pending, sat_pass_add_refines}
use hubble_reference_thingy.Sat.Search.{Skips, next_in_table_refines}
use hubble_reference_thingy.Sat.Schedule.{ms_per_s, find_pass, sat_schedule_next_transmission}
use hubble_reference_thingy.Sat.Schedule.FromTable.{outcome, sat_schedule_next_transmission_arms}
use hubble_reference_thingy.Sat.Schedule.Predicted.{
  ArmsPass, AreTimes, sat_schedule_next_transmission_predicted,
}
use hubble_reference_thingy.Sat.Schedule.Total.{IsPassSource, sat_schedule_next_transmission_total}
use hubble_reference_thingy.Sat.Payload.{payload_get}
use hubble_reference_thingy.Sat.Table.{pending}
use hubble_reference_thingy.Sat.Rounds.{waited_for, next_in_table_serves_each}
use hubble_reference_thingy.Sat.Table.{view}
use hubble_reference_thingy.Sat.Transmit.{
  send_while_open, send_in_window, finish_transmit, send_packet, transmit_packet, sat_transmit,
}
use hubble_reference_thingy.Drivers.Led.{led_blink_start, led_blink_stop}
use hubble_reference_thingy.Sat.Flag.{OthersKeepFlag, packet_result, sat_transmit-flag}
use hubble_reference_thingy.Sat.Window.{IsClock, OthersKeepInterval, EndsIn, send_in_window_ends}

-- two passes in the table, the first of which has begun
abbrev pub past_pass : Pass
past_pass = record { timestamp = 999999000; duration = 60 }

abbrev pub next_pass : Pass
next_pass = record { timestamp = 1000000500; duration = 12 }

abbrev pub empty_pass : Pass
empty_pass = record { timestamp = 0; duration = 0 }

abbrev pub two_passes : Sat
two_passes = record fresh_sat {
  passes = past_pass ∷ next_pass ∷ replicate 298 empty_pass;
  count = 2;
}

pub two_passes-IsTable : IsTable two_passes
two_passes-IsTable = record { array = refl; idx_in = omega arith; count_in = omega arith }

-- the second of them is current
abbrev at_next : Sat
at_next = record two_passes { idx = 1 }

abbrev pub with_passes : AppWorld
with_passes = record { state = record fresh { sat = two_passes }; trace = [] }

abbrev in_pass : AppWorld
in_pass = record { state = record fresh { sat = at_next }; trace = [] }

abbrev now_s : ℕ
now_s = now_ms / ms_per_s

sat_pass_add_refines_example :
    let (ret, s') = sat_pass_add table_config 1000001000 30 two_passes in
    IsTable s' × ((is_zero ret, view s') ≡ Queue.add 1000001000 30 (view two_passes))
sat_pass_add_refines_example =
    sat_pass_add_refines table_config 1000001000 30 table_config-IsConfig refl two_passes-IsTable

next_in_table_refines_example : Skips now_s two_passes (next_in_table now_s two_passes)
next_in_table_refines_example = next_in_table_refines now_s two_passes-IsTable

sat_schedule_next_transmission_arms_example :
    let (r, w') = sat_schedule_next_transmission table_config calm 0 with_passes in
    let future = drop_started now_s (pending two_passes) in
    (pending w'.state.sat ≡ future)
    × (r ≡ (outcome now_s future).0)
    × (w'.trace ≡ (outcome now_s future).1 ++ (hubble_time_get ∷ []))
    × IsTable w'.state.sat
sat_schedule_next_transmission_arms_example =
    sat_schedule_next_transmission_arms table_config calm 0 with_passes refl two_passes-IsTable
      (omega arith, (omega arith, tt))

calm-AreTimes : AreTimes calm
calm-AreTimes = record { start_in = λ tr t lat lon. ground arith }

pub calm-IsPassSource : IsPassSource 2 calm
calm-IsPassSource = record {
  ends_after = λ tr t lat lon h. ground arith;
  short = λ tr t lat lon h. ground arith;
  fits = λ tr t lat lon h. ground arith;
}

sat_schedule_next_transmission_predicted_example :
    ArmsPass now_ms (sat_schedule_next_transmission predicted_config calm 3 started).1
unfolding sat_schedule_next_transmission find_pass
sat_schedule_next_transmission_predicted_example =
    sat_schedule_next_transmission_predicted predicted_config calm 3 started refl calm-AreTimes
      (omega arith) refl

sat_schedule_next_transmission_total_example :
    (r : ℤ) × ((sat_schedule_next_transmission predicted_config calm 3 started).0 ≡ some r)
sat_schedule_next_transmission_total_example =
    sat_schedule_next_transmission_total predicted_config calm 3 2 started calm-IsPassSource
      (omega arith)

calm-OthersKeepFlag : OthersKeepFlag calm
calm-OthersKeepFlag = record { keep = λ tr k a. refl }

sat_transmit-flag_example : (sat_transmit table_config calm 9 in_pass).1.state.sat.transmitting ≡ (
    if is_zero (pos 0)
    then false
    else if is_zero (packet_result table_config calm in_pass)
    then true
    else false)
unfolding sat_transmit transmit_packet send_packet send_in_window send_while_open finish_transmit
    payload_get led_blink_start led_blink_stop sat_transmission_time_get
sat_transmit-flag_example = sat_transmit-flag table_config calm 9 in_pass calm-OthersKeepFlag refl

pub calm-IsClock : IsClock calm
calm-IsClock = record { mono = λ tr k. ground arith; sleeps = λ tr s. omega arith }

pub calm-OthersKeepInterval : OthersKeepInterval calm
calm-OthersKeepInterval = record { keep = λ tr k a. refl }

-- a window of twelve seconds takes three sends, five seconds apart
send_in_window_ends_example : EndsIn 1 3 in_pass (send_in_window calm 4 (1 ∷ 2 ∷ 3 ∷ []) in_pass)
unfolding sat_transmission_time_get
send_in_window_ends_example =
    send_in_window_ends calm calm-IsClock calm-OthersKeepInterval 4 3 12 (1 ∷ 2 ∷ 3 ∷ []) in_pass
      refl (omega arith) (omega arith)

next_in_table_serves_each_example : waited_for (5 ∷ 999999030 ∷ []) two_passes ≡ pending two_passes
next_in_table_serves_each_example =
    next_in_table_serves_each (5 ∷ 999999030 ∷ []) two_passes two_passes-IsTable
      (omega arith, omega arith, (omega arith, omega arith, tt))
