-- ===== src/Device/Tests.antt =====
-- The theorems on the events of the application core at concrete inputs.
use hubble_reference_thingy.Common.{
  ℕ, zero, suc, ◌≡◌, refl, ap, ◌&&◌, true, false, some, List, [], ◌∷◌, arith, replicate,
  length-take,
}
use hubble_reference_thingy.App.{led_timer, button_work, Call, k_sem_take}
use hubble_reference_thingy.App.Examples.{table_config, predicted_config, calm, fresh, started}
use hubble_reference_thingy.App.Locks.{radio}
use hubble_reference_thingy.SatIpc.{ok}
use hubble_reference_thingy.Sat.Passes.{no_pass}
use hubble_reference_thingy.Sat.Schedule.{
  find_pass, schedule_from_table, sat_schedule_next_transmission,
}
use hubble_reference_thingy.Sat.Transmit.{
  send_once, finish_transmit, send_packet, transmit_packet, sat_transmit,
}
use hubble_reference_thingy.Main.Network.{sat_enable}
use hubble_reference_thingy.Main.Loop.{satellite_session, end_round, round_after, main_round}
use hubble_reference_thingy.Common.Text.{codes}
use hubble_reference_thingy.Ble.Ephemeris.{AreEntries}
use hubble_reference_thingy.Device.{
  Event, booted, round, expires, stops, works, connected, disconnected, written, pressed, received,
  typed, payload, status, bluetooth, run,
}
use hubble_reference_thingy.Device.State.{IsApp, IsWithinBounds}
use hubble_reference_thingy.Device.Safe.{AreEvents}
use hubble_reference_thingy.Sat.Fits.{FitsPacket}
use hubble_reference_thingy.Device.Packet.{run-interleaved-FitsPacket}
use hubble_reference_thingy.Device.Interleaved.{Schedule, interleaved, run-interleaved-IsApp}
use hubble_reference_thingy.Device.Radio.{run-radio}
use hubble_reference_thingy.Device.Asleep.{unscheduled_sleeps}
use hubble_reference_thingy.Device.Steady.{AreSteady}
use hubble_reference_thingy.App.Wake.{may_wake}
use hubble_reference_thingy.Ble.Switch.{ble_enable}
use hubble_reference_thingy.Common.Int.{negsuc}
use hubble_reference_thingy.Sat.Passes.{next_in_table}

no_passes-AreEntries : (n : ℕ) → AreEntries (replicate n no_pass)
no_passes-AreEntries zero = tt
no_passes-AreEntries (suc n) = (omega arith, omega arith, no_passes-AreEntries n)

fresh-IsApp : IsApp table_config fresh
fresh-IsApp = record {
  sat = record {
    table = record { array = refl; idx_in = omega arith; count_in = omega arith };
    entries = no_passes-AreEntries 300;
    retransmission = omega arith;
    buffer = refl;
    size = omega arith;
    latitude = refl;
    longitude = refl;
    start = omega arith;
  };
  ble = record { buffer = refl; within0 = tt; within1 = tt };
  key = refl;
  utc = omega arith;
  sector_size = omega arith;
  sector_count = omega arith;
}

calm-IsWithinBounds : IsWithinBounds table_config calm
calm-IsWithinBounds = record {
  decodes = λ tr text. omega arith;
  reads = λ tr id len. omega arith;
  gives =
      λ tr len. (omega (arith, length-take {A = ℕ} len (0xA6 ∷ 0xFC ∷ 1 ∷ 2 ∷ [])), omega arith);
  times = λ tr t lat lon. grind arith;
  others = λ tr k a v. v;
}

-- a day of the device, with an ephemeris message that names one pass
abbrev day : List Event
day =
    booted
    ∷ connected
    ∷ written (2 ∷ 7 ∷ 1 ∷ 0 ∷ 0 ∷ 0 ∷ 9 ∷ 0 ∷ 0 ∷ 0 ∷ 3 ∷ 0 ∷ []) 12 false
    ∷ disconnected
    ∷ typed payload (codes "payload" ∷ codes "custom" ∷ codes "hello" ∷ [])
    ∷ round 9
    ∷ expires led_timer
    ∷ stops led_timer
    ∷ received ok
    ∷ []

day-AreEvents : AreEvents day
day-AreEvents = (tt, (tt, (ground arith, (tt, (tt, (tt, (tt, (tt, (tt, tt)))))))))

-- another write while main's part of the day waits for a semaphore
abbrev pub meddling : Schedule
meddling tr (k_sem_take _ _) =
    written (2 ∷ 7 ∷ 1 ∷ 0 ∷ 0 ∷ 0 ∷ 9 ∷ 0 ∷ 0 ∷ 0 ∷ 3 ∷ 0 ∷ []) 12 false ∷ typed status [] ∷ []
meddling tr _ = []

meddling-AreEvents : (tr : List Call) (k : Call) → AreEvents (meddling tr k)
meddling-AreEvents tr k = ground arith

run-interleaved-IsApp_example :
    IsApp table_config
      (run table_config (interleaved table_config calm meddling 2) day started).1.state
run-interleaved-IsApp_example =
    run-interleaved-IsApp table_config calm meddling 2 day started (omega arith) meddling-AreEvents
      calm-IsWithinBounds day-AreEvents fresh-IsApp

round_completes : (main_round predicted_config calm 9 started).0 ≡ true
unfolding main_round round_after sat_schedule_next_transmission find_pass end_round
    satellite_session sat_enable sat_transmit transmit_packet finish_transmit send_packet send_once
round_completes = refl

-- a round, a press of the button, and the command that switches Bluetooth off
abbrev events : List Event
events =
    round 9
    ∷ pressed
    ∷ works button_work
    ∷ typed bluetooth (codes "bluetooth" ∷ codes "disable" ∷ [])
    ∷ []

run-radio_example : radio (run predicted_config calm events started).1.trace ≡ some false
run-radio_example =
    run-radio predicted_config calm events started (tt, (tt, (tt, (tt, tt)))) refl
      (ap (λ b. b && true) round_completes)

-- Without a pass the rounds end here: an ephemeris message comes too late.
no_pass_found : (sat_schedule_next_transmission table_config calm 9 started).0 ≡ some (negsuc 0)
unfolding sat_schedule_next_transmission schedule_from_table next_in_table
no_pass_found = refl

abbrev meanwhile : List Event
meanwhile =
    connected
    ∷ written (2 ∷ 7 ∷ 1 ∷ 0 ∷ 0 ∷ 0 ∷ 9 ∷ 0 ∷ 0 ∷ 0 ∷ 3 ∷ 0 ∷ []) 12 false
    ∷ disconnected
    ∷ pressed
    ∷ works button_work
    ∷ []

unscheduled_sleeps_example :
    let scheduled = (sat_schedule_next_transmission table_config calm 9 started).1 in
    may_wake
      (run table_config calm meanwhile (ble_enable table_config calm false scheduled).1).1.trace
    ≡ false
unscheduled_sleeps_example =
    unscheduled_sleeps table_config calm 9 meanwhile started refl no_pass_found
      (tt, (tt, (tt, (tt, (tt, tt)))))

-- the companion writes another pass while main waits for the timer
pub meddling-AreSteady : (tr : List Call) (k : Call) → AreSteady (meddling tr k)
meddling-AreSteady tr k = ground arith

run-interleaved-FitsPacket_example :
    FitsPacket table_config
      (interleaved table_config calm meddling 2)
      (run table_config (interleaved table_config calm meddling 2) day started).1
run-interleaved-FitsPacket_example =
    run-interleaved-FitsPacket table_config calm meddling 2 day started (omega arith) (omega arith)
      (omega arith) meddling-AreEvents calm-IsWithinBounds day-AreEvents fresh-IsApp
