-- ===== src/Main/Keeps.antt =====
-- What a round of main (app/src/main.c) leaves of the pass table after its search, whatever becomes of its
-- satellite session: any property that other threads keep, and that the flag of a transmission has no part in.
use hubble_reference_thingy.Common.{
  ℕ, zero, suc, Bool, true, false, Option, none, some, List, arith,
}
use hubble_reference_thingy.Common.Int.{ℤ}
use hubble_reference_thingy.Common.Effects.{block}
use hubble_reference_thingy.Config.{Config}
use hubble_reference_thingy.App.{
  App, AppEnv, AppWorld, Call, Sat, with_sat, timer_sem, forever, radio_mutex, k_sem_take,
  k_mutex_lock,
}
use hubble_reference_thingy.Drivers.Led.{led_blink_start, led_blink_stop}
use hubble_reference_thingy.Sat.Flag.{payload_get-state, led_blink_start-state}
use hubble_reference_thingy.Sat.Payload.{payload_get}
use hubble_reference_thingy.Sat.Transmit.{
  send_while_open, send_in_window, send_once, finish_transmit, send_packet, transmit_packet,
  sat_transmit,
}
use hubble_reference_thingy.Ble.Switch.{ble_enable, ble_disable}
use hubble_reference_thingy.Main.Network.{sat_enable, sat_disable}
use hubble_reference_thingy.Main.Quiet.{ble_enable-keeps, ble_disable-keeps, sat_enable-keeps}
use hubble_reference_thingy.Main.Loop.{satellite_session, end_round, round_after}

module _ (c : Config) (env : AppEnv) (P : Sat → Type 0)
    (others : (tr : List Call) (k : Call) (a : App) → P a.sat → P (env.others tr k a).sat)
    (flags : (b : Bool) (s : Sat) → P s → P (record s { transmitting = b })) where
  send_while_open-keeps :
      (fuel now start : ℕ) (duration : ℤ) (pkt : List ℕ) (w : AppWorld)
      → P w.state.sat
      → P (send_while_open env fuel now start duration pkt w).1.state.sat
  unfolding send_while_open
  send_while_open-keeps zero now start duration pkt w h = h
  send_while_open-keeps (suc fuel) now start duration pkt w h =
      grind (arith, others, send_while_open-keeps fuel)

  send_packet-keeps :
      (fuel : ℕ) (pkt : List ℕ) (w : AppWorld)
      → P w.state.sat
      → P (send_packet c env fuel pkt w).1.state.sat
  unfolding send_packet send_in_window send_once
  send_packet-keeps fuel pkt w h = grind (arith, others, send_while_open-keeps)

  finish_transmit-keeps :
      (r : Option ℤ) (w : AppWorld) → P w.state.sat → P (finish_transmit c env r w).1.state.sat
  unfolding finish_transmit led_blink_stop
  finish_transmit-keeps none w h = h
  finish_transmit-keeps (some ret) w h = ground (arith, flags false w.state.sat h)

  transmit_packet-keeps :
      (fuel : ℕ) (ret : ℤ) (pkt : List ℕ) (w : AppWorld)
      → P w.state.sat
      → P (transmit_packet c env fuel ret pkt w).1.state.sat
  unfolding transmit_packet
  transmit_packet-keeps fuel ret pkt w h =
      let w' : AppWorld = record w {
        state = with_sat (λ s. record s { transmitting = true }) w.state;
      } in
      let lit = (led_blink_start c env w').1 in
      let on : P lit.state.sat = rw (led_blink_start-state c env w') (flags true w.state.sat h) in
      let sent = send_packet c env fuel pkt lit in
      ground (arith, finish_transmit-keeps sent.0 sent.1 (send_packet-keeps fuel pkt lit on))

  sat_transmit-keeps :
      (fuel : ℕ) (w : AppWorld) → P w.state.sat → P (sat_transmit c env fuel w).1.state.sat
  unfolding sat_transmit
  sat_transmit-keeps fuel w h =
      let same : P (payload_get c env w).1.state.sat = rw (payload_get-state c env w) h in
      transmit_packet-keeps fuel _ _ _ same

  satellite_session-keeps :
      (fuel : ℕ) (w : AppWorld) → P w.state.sat → P (satellite_session c env fuel w).1.state.sat
  unfolding satellite_session sat_disable
  satellite_session-keeps fuel w h =
      let on = sat_enable-keeps c env P others w h in
      ground (arith, sat_transmit-keeps fuel (sat_enable c env w).1 on)

  -- from the scheduling on
  pub round_after-keeps :
      (fuel : ℕ) (ret : ℤ) (w : AppWorld)
      → P w.state.sat
      → P (round_after c env fuel (some ret) w).1.state.sat
  unfolding round_after end_round
  round_after-keeps fuel ret w h =
      let on = (ble_enable c env false w).1 in
      let woken = (block env (k_sem_take timer_sem forever) on).1 in
      let idle = (ble_disable env false woken).1 in
      let enabled = ble_enable-keeps c env P others false w h in
      let awake = others on.trace (k_sem_take timer_sem forever) on.state enabled in
      let quiet = ble_disable-keeps c env P others false woken awake in
      let locked = others idle.trace (k_mutex_lock radio_mutex) idle.state quiet in
      ground
        (arith, satellite_session-keeps fuel (block env (k_mutex_lock radio_mutex) idle).1 locked)
