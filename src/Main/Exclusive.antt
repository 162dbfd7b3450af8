-- ===== src/Main/Exclusive.antt =====
-- The two uses of the network core: when a session of main (app/src/main.c) starts it for the satellite
-- stack although Bluetooth was switched on last.
use hubble_reference_thingy.Common.{
  ℕ, zero, suc, ◌≡◌, refl, ◌∙◌, Bool, true, false, not, ◌&&◌, Option, none, some, List, [], ◌∷◌,
  arith,
}
use hubble_reference_thingy.Common.Int.{ℤ}
use hubble_reference_thingy.Common.Effects.{block}
use hubble_reference_thingy.Config.{Config}
use hubble_reference_thingy.App.{
  AppEnv, AppWorld, Call, nrf53_cpunet_enable, radio_mutex, k_mutex_lock,
}
use hubble_reference_thingy.Drivers.Led.{led_blink_start, led_blink_stop}
use hubble_reference_thingy.Ble.Switch.{ble_enable, ble_disable}
use hubble_reference_thingy.Ble.Policy.{bt_on, user_on-IsSwitchedOn}
use hubble_reference_thingy.Sat.Payload.{payload_get}
use hubble_reference_thingy.Sat.Transmit.{
  send_while_open, send_in_window, send_once, finish_transmit, send_packet, transmit_packet,
  sat_transmit,
}
use hubble_reference_thingy.Ipc.{ipc_send}
use hubble_reference_thingy.Main.Network.{sat_enable, sat_disable}
use hubble_reference_thingy.Main.Loop.{satellite_session}

-- whether no call of the trace started the network core with Bluetooth switched on last
abbrev pub exclusive : List Call → Bool
exclusive [] = true
exclusive (nrf53_cpunet_enable true ∷ tr) = not (bt_on tr) && exclusive tr
exclusive (_ ∷ tr) = exclusive tr

module _ (env : AppEnv) where
  send_while_open-exclusive :
      (fuel now start : ℕ) (duration : ℤ) (pkt : List ℕ) (w : AppWorld)
      → exclusive (send_while_open env fuel now start duration pkt w).1.trace ≡ exclusive w.trace
  unfolding send_while_open
  send_while_open-exclusive zero now start duration pkt w = refl
  send_while_open-exclusive (suc fuel) now start duration pkt w =
      grind (arith, send_while_open-exclusive fuel)

  sat_disable-exclusive : (w : AppWorld) → exclusive (sat_disable env w).1.trace ≡ exclusive w.trace
  unfolding sat_disable
  sat_disable-exclusive w = ground arith

module _ (c : Config) (env : AppEnv) where
  payload_get-exclusive :
      (w : AppWorld) → exclusive (payload_get c env w).1.trace ≡ exclusive w.trace
  unfolding payload_get
  payload_get-exclusive w = ground arith

  led_blink_start-exclusive :
      (w : AppWorld) → exclusive (led_blink_start c env w).1.trace ≡ exclusive w.trace
  unfolding led_blink_start
  led_blink_start-exclusive w = ground arith

  finish_transmit-exclusive :
      (r : Option ℤ) (w : AppWorld)
      → exclusive (finish_transmit c env r w).1.trace ≡ exclusive w.trace
  unfolding finish_transmit led_blink_stop
  finish_transmit-exclusive none w = refl
  finish_transmit-exclusive (some ret) w = ground arith

  send_packet-exclusive :
      (fuel : ℕ) (pkt : List ℕ) (w : AppWorld)
      → exclusive (send_packet c env fuel pkt w).1.trace ≡ exclusive w.trace
  unfolding send_packet send_once send_in_window
  send_packet-exclusive fuel pkt w = grind (arith, send_while_open-exclusive)

  sat_transmit-exclusive :
      (fuel : ℕ) (w : AppWorld) → exclusive (sat_transmit c env fuel w).1.trace ≡ exclusive w.trace
  unfolding sat_transmit transmit_packet
  sat_transmit-exclusive fuel w = grind (
    arith, payload_get-exclusive, led_blink_start-exclusive, send_packet-exclusive,
    finish_transmit-exclusive,
  )

  -- Only the first call of sat_enable matters: it starts the core.
  sat_enable-exclusive :
      (w : AppWorld)
      → exclusive (sat_enable c env w).1.trace ≡ (not (bt_on w.trace) && exclusive w.trace)
  unfolding sat_enable ipc_send
  sat_enable-exclusive w = ground arith

  -- A satellite session starts the network core while Bluetooth is on exactly if the calls before it
  -- switched Bluetooth on last, whatever the network core, the SDK and the drivers answer: else no call
  -- that it makes itself does so, and if no start in the trace before it did, none after it has.
  pub satellite_session-exclusive :
      (fuel : ℕ) (w : AppWorld)
      → exclusive (satellite_session c env fuel w).1.trace
        ≡ (not (bt_on w.trace) && exclusive w.trace)
  unfolding satellite_session
  satellite_session-exclusive fuel w =
      grind (arith, sat_enable-exclusive, sat_transmit-exclusive, sat_disable-exclusive)

  -- Where the user switches Bluetooth on after main has switched it off, and before main takes the
  -- radio's mutex again, main starts the network core for the satellite stack although Bluetooth
  -- was switched on last.
  pub user_on_overlaps :
      (fuel : ℕ) (w : AppWorld)
      → let off = (ble_disable env false w).1 in
        let on = (ble_enable c env true off).1 in
        let locked = (block env (k_mutex_lock radio_mutex) on).1 in
        exclusive (satellite_session c env fuel locked).1.trace ≡ false
  user_on_overlaps fuel w =
      let off = (ble_disable env false w).1 in
      let on = (user_on-IsSwitchedOn c env off).1 in
      satellite_session-exclusive fuel _ ∙ ground (arith, on)
