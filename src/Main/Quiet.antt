-- ===== src/Main/Quiet.antt =====
-- What the functions of a round of main (app/src/main.c) that do not transmit leave alone: the packets
-- sent, and any property of the pass table that other threads keep.
use hubble_reference_thingy.Common.{◌≡◌, Bool, List, arith}
use hubble_reference_thingy.Config.{Config}
use hubble_reference_thingy.App.{App, AppEnv, AppWorld, Call, Sat}
use hubble_reference_thingy.Drivers.Led.{led_blink_start}
use hubble_reference_thingy.Ipc.{ipc_send}
use hubble_reference_thingy.Ble.Advertise.{ble_init, ble_adv_start, ble_adv_stop}
use hubble_reference_thingy.Ble.Switch.{
  start_advertising, bring_up, enable_locked, ble_enable, ble_disable,
}
use hubble_reference_thingy.Sat.Payload.{payload_get}
use hubble_reference_thingy.Sat.Window.{sends}
use hubble_reference_thingy.Main.Network.{sat_enable, sat_disable}

module _ (c : Config) (env : AppEnv) where
  pub ble_enable-sends :
      (user_requested : Bool) (w : AppWorld)
      → sends (ble_enable c env user_requested w).1.trace ≡ sends w.trace
  unfolding ble_enable enable_locked bring_up start_advertising ble_init ble_adv_start
  ble_enable-sends user_requested w = ground arith

  pub ble_disable-sends :
      (user_requested : Bool) (w : AppWorld)
      → sends (ble_disable env user_requested w).1.trace ≡ sends w.trace
  unfolding ble_disable ble_adv_stop
  ble_disable-sends user_requested w = ground arith

  pub sat_enable-sends : (w : AppWorld) → sends (sat_enable c env w).1.trace ≡ sends w.trace
  unfolding sat_enable ipc_send
  sat_enable-sends w = ground arith

  pub sat_disable-sends : (w : AppWorld) → sends (sat_disable env w).1.trace ≡ sends w.trace
  unfolding sat_disable
  sat_disable-sends w = ground arith

  pub payload_get-sends : (w : AppWorld) → sends (payload_get c env w).1.trace ≡ sends w.trace
  unfolding payload_get
  payload_get-sends w = ground arith

  pub led_blink_start-sends :
      (w : AppWorld) → sends (led_blink_start c env w).1.trace ≡ sends w.trace
  unfolding led_blink_start
  led_blink_start-sends w = ground arith

module _ (c : Config) (env : AppEnv) (P : Sat → Type 0)
    (others : (tr : List Call) (k : Call) (a : App) → P a.sat → P (env.others tr k a).sat) where
  pub ble_enable-keeps :
      (user_requested : Bool) (w : AppWorld)
      → P w.state.sat
      → P (ble_enable c env user_requested w).1.state.sat
  unfolding ble_enable enable_locked bring_up start_advertising ble_init ble_adv_start
  ble_enable-keeps user_requested w h = grind (arith, others)

  pub ble_disable-keeps :
      (user_requested : Bool) (w : AppWorld)
      → P w.state.sat
      → P (ble_disable env user_requested w).1.state.sat
  unfolding ble_disable ble_adv_stop
  ble_disable-keeps user_requested w h = grind (arith, others)

  pub sat_enable-keeps : (w : AppWorld) → P w.state.sat → P (sat_enable c env w).1.state.sat
  unfolding sat_enable ipc_send
  sat_enable-keeps w h = grind (arith, others)
