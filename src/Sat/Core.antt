-- ===== src/Sat/Core.antt =====
-- A transmission of app/src/sat_board.c neither starts nor stops the network core, nor marks a stack.
use hubble_reference_thingy.Common.{ℕ, zero, suc, ◌≡◌, refl, Option, none, some, List, arith}
use hubble_reference_thingy.Common.Int.{ℤ}
use hubble_reference_thingy.Config.{Config}
use hubble_reference_thingy.App.{AppEnv, AppWorld}
use hubble_reference_thingy.App.Stack.{core}
use hubble_reference_thingy.Drivers.Led.{led_blink_start, led_blink_stop}
use hubble_reference_thingy.Sat.Payload.{payload_get}
use hubble_reference_thingy.Sat.Transmit.{
  send_while_open, send_in_window, send_once, finish_transmit, send_packet, transmit_packet,
  sat_transmit,
}

module _ (c : Config) (env : AppEnv) where
  payload_get-core : (w : AppWorld) → core (payload_get c env w).1.trace ≡ core w.trace
  unfolding payload_get
  payload_get-core w = ground arith

  led_blink_start-core : (w : AppWorld) → core (led_blink_start c env w).1.trace ≡ core w.trace
  unfolding led_blink_start
  led_blink_start-core w = ground arith

  finish_transmit-core :
      (r : Option ℤ) (w : AppWorld) → core (finish_transmit c env r w).1.trace ≡ core w.trace
  unfolding finish_transmit led_blink_stop
  finish_transmit-core none w = refl
  finish_transmit-core (some ret) w = ground arith

  send_while_open-core :
      (fuel now start : ℕ) (duration : ℤ) (pkt : List ℕ) (w : AppWorld)
      → core (send_while_open env fuel now start duration pkt w).1.trace ≡ core w.trace
  unfolding send_while_open
  send_while_open-core zero now start duration pkt w = refl
  send_while_open-core (suc fuel) now start duration pkt w =
      grind (arith, send_while_open-core fuel)

  send_in_window-core :
      (fuel : ℕ) (pkt : List ℕ) (w : AppWorld)
      → core (send_in_window env fuel pkt w).1.trace ≡ core w.trace
  unfolding send_in_window
  send_in_window-core fuel pkt w = grind (arith, send_while_open-core)

  send_once-core : (pkt : List ℕ) (w : AppWorld) → core (send_once env pkt w).1.trace ≡ core w.trace
  unfolding send_once
  send_once-core pkt w = ground arith

  pub sat_transmit-core :
      (fuel : ℕ) (w : AppWorld) → core (sat_transmit c env fuel w).1.trace ≡ core w.trace
  unfolding sat_transmit transmit_packet send_packet
  sat_transmit-core fuel w = grind (
    arith, payload_get-core, led_blink_start-core, finish_transmit-core, send_in_window-core,
    send_once-core,
  )
