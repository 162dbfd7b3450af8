-- ===== src/Device/Bluetooth.antt =====
-- The functions of app/src/ble.c and app/src/button.c and the bounds of the globals.
use hubble_reference_thingy.Common.{ℕ, Bool, true, false, List, ◌∷◌, drop, length-memcpy, arith}
use hubble_reference_thingy.Config.{Config}
use hubble_reference_thingy.App.{
  AppEnv, AppWorld, ble_timer, k_timer_start, hubble_ble_advertise_get, with_ble, bt_enable,
  bt_is_ready, radio_mutex, k_mutex_lock,
}
use hubble_reference_thingy.Ble.Advertise.{
  ble_buffer_len, ble_init, ble_adv_start, ble_adv_stop, ble_work_handler,
}
use hubble_reference_thingy.Ble.Write.{chr_write_cb}
use hubble_reference_thingy.Ble.Switch.{
  start_advertising, bring_up, enable_locked, ble_enable, ble_disable,
}
use hubble_reference_thingy.Button.{button_pressed_worker}
use hubble_reference_thingy.Device.State.{IsApp, IsWithinBounds, AreBytes}
use hubble_reference_thingy.Device.Satellite.{set_ephemeris-IsSat, device_location_set-IsSat}

pub chr_write_cb-IsApp :
    (c : Config) (env : AppEnv) (req : List ℕ) (len : ℕ) (prepare : Bool) (w : AppWorld)
    → AreBytes req
    → IsApp c w.state
    → IsApp c (chr_write_cb c env req len prepare w).1.state
unfolding chr_write_cb
chr_write_cb-IsApp c env req len prepare w bytes v = ground (
  arith,
  set_ephemeris-IsSat c c.payload_max req len bytes v.sat,
  device_location_set-IsSat c c.payload_max (drop 2 req) (drop 10 req) v.sat,
)

module _ (c : Config) (env : AppEnv) (b : IsWithinBounds c env) where
  pub ble_init-IsApp : (w : AppWorld) → IsApp c w.state → IsApp c (ble_init env w).1.state
  unfolding ble_init
  ble_init-IsApp w v = v

  ble_adv_start-IsApp : (w : AppWorld) → IsApp c w.state → IsApp c (ble_adv_start c env w).1.state
  unfolding ble_adv_start
  ble_adv_start-IsApp w v =
      let get = hubble_ble_advertise_get ble_buffer_len in
      let tr = k_timer_start ble_timer c.adv_frequency 0 ∷ w.trace in
      let (out, len) = b.gives tr ble_buffer_len in
      ground (arith, len, out, length-memcpy w.state.ble.ad_buffer 0 (env.out tr get))

  pub ble_work_handler-IsApp :
      (w : AppWorld) → IsApp c w.state → IsApp c (ble_work_handler c env w).1.state
  unfolding ble_work_handler ble_adv_stop
  ble_work_handler-IsApp w v = ble_adv_start-IsApp _ v

  start_advertising-IsApp :
      (w : AppWorld) → IsApp c w.state → IsApp c (start_advertising c env w).1.state
  unfolding start_advertising
  start_advertising-IsApp w v = ground (arith, ble_init-IsApp w v, ble_adv_start-IsApp w v)

  bring_up-IsApp : (w : AppWorld) → IsApp c w.state → IsApp c (bring_up c env w).1.state
  unfolding bring_up
  bring_up-IsApp w v =
      ground (arith, start_advertising-IsApp (record w { trace = bt_enable ∷ w.trace }) v)

  enable_locked-IsApp :
      (user_requested : Bool) (w : AppWorld)
      → IsApp c w.state
      → IsApp c (enable_locked c env user_requested w).1.state
  unfolding enable_locked
  enable_locked-IsApp user_requested w v =
      let w' : AppWorld = record w {
        state = with_ble (λ s. record s { off_by_user = false }) w.state;
      } in
      ground (arith, bring_up-IsApp w v, bring_up-IsApp w' (ground (arith, v)))

  pub ble_enable-IsApp :
      (user_requested : Bool) (w : AppWorld)
      → IsApp c w.state
      → IsApp c (ble_enable c env user_requested w).1.state
  unfolding ble_enable
  ble_enable-IsApp user_requested w v = enable_locked-IsApp user_requested _ (b.others _ _ _ v)

  pub ble_disable-IsApp :
      (user_requested : Bool) (w : AppWorld)
      → IsApp c w.state
      → IsApp c (ble_disable env user_requested w).1.state
  unfolding ble_disable ble_adv_stop
  ble_disable-IsApp user_requested w v =
      ground (arith, b.others w.trace (k_mutex_lock radio_mutex) w.state v)

  pub button_pressed_worker-IsApp :
      (w : AppWorld) → IsApp c w.state → IsApp c (button_pressed_worker c env w).1.state
  unfolding button_pressed_worker
  button_pressed_worker-IsApp w v =
      let w' : AppWorld = record w { trace = bt_is_ready ∷ w.trace } in
      ground (arith, ble_enable-IsApp true w' v, ble_disable-IsApp true w' v)
