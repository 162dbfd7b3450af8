-- ===== src/Device/Program.antt =====
-- The functions of app/src/main.c and the bounds of the globals.
use hubble_reference_thingy.Common.{
  ℕ, Bool, true, false, Option, none, some, List, length-memcpy, arith,
}
use hubble_reference_thingy.Common.Int.{ℤ}
use hubble_reference_thingy.Config.{Config}
use hubble_reference_thingy.SatIpc.{Message}
use hubble_reference_thingy.App.{
  App, AppEnv, AppWorld, Call, radio_mutex, k_mutex_lock, nvs_read, forever, k_sem_take, timer_sem,
}
use hubble_reference_thingy.Drivers.Nvs.{hubble_key_id}
use hubble_reference_thingy.Ipc.{ipc_send}
use hubble_reference_thingy.Sat.Transmit.{sat_transmit}
use hubble_reference_thingy.Ble.Advertise.{ble_init}
use hubble_reference_thingy.Main.Key.{key_get}
use hubble_reference_thingy.Main.Network.{sat_enable, sat_disable}
use hubble_reference_thingy.Main.Loop.{
  load_key, register_satellites, boot, satellite_session, end_round, round_after, main_round,
}
use hubble_reference_thingy.Device.State.{IsApp, IsWithinBounds}
use hubble_reference_thingy.Device.Satellite.{sat_schedule-IsApp, sat_transmit-IsApp}
use hubble_reference_thingy.Device.Bluetooth.{ble_enable-IsApp, ble_disable-IsApp}
use hubble_reference_thingy.Device.Commands.{crypto_key_set-IsApp}

-- What a session and the start-up keep, whatever it is.
module _ (c : Config) (env : AppEnv) (P : App → Type 0) where
  satellite_session-keeps :
      (fuel : ℕ) (w : AppWorld)
      → P (sat_enable c env w).1.state
      → P (sat_transmit c env fuel (sat_enable c env w).1).1.state
      → P (satellite_session c env fuel w).1.state
  unfolding satellite_session sat_disable
  satellite_session-keeps fuel w enabled sent = ground arith

  boot-keeps :
      (w : AppWorld)
      → ((tr : List Call) (k : Call) (a : App) → P a → P (env.others tr k a))
      → P (load_key c env w).1.state
      → P (boot c env w).1.state
  unfolding boot ble_init register_satellites
  boot-keeps w others loaded = grind (arith, others)

module _ (c : Config) (env : AppEnv) (b : IsWithinBounds c env) where
  ipc_send-IsApp :
      (m : Message) (w : AppWorld) → IsApp c w.state → IsApp c (ipc_send env m w).1.state
  unfolding ipc_send
  ipc_send-IsApp m w v = grind (arith, b.others)

  sat_enable-IsApp : (w : AppWorld) → IsApp c w.state → IsApp c (sat_enable c env w).1.state
  unfolding sat_enable
  sat_enable-IsApp w v = grind (arith, b.others, ipc_send-IsApp)

  sat_disable-IsApp : (w : AppWorld) → IsApp c w.state → IsApp c (sat_disable env w).1.state
  unfolding sat_disable
  sat_disable-IsApp w v = ground arith

  satellite_session-IsApp :
      (fuel : ℕ) (w : AppWorld) → IsApp c w.state → IsApp c (satellite_session c env fuel w).1.state
  satellite_session-IsApp fuel w v =
      let enabled = sat_enable-IsApp w v in
      satellite_session-keeps c env (IsApp c) fuel w enabled
        (sat_transmit-IsApp c env b fuel _ enabled)

  end_round-IsApp :
      (complete : Bool) (w : AppWorld)
      → IsApp c w.state
      → IsApp c (end_round c env complete w).1.state
  unfolding end_round
  end_round-IsApp false w v = v
  end_round-IsApp true w v = v

  round_after-IsApp :
      (fuel : ℕ) (scheduled : Option ℤ) (w : AppWorld)
      → IsApp c w.state
      → IsApp c (round_after c env fuel scheduled w).1.state
  unfolding round_after
  round_after-IsApp fuel none w v = v
  round_after-IsApp fuel (some r) w v =
      let waited =
        b.others _ (k_sem_take timer_sem forever) _ (ble_enable-IsApp c env b false w v) in
      let locked =
        b.others _ (k_mutex_lock radio_mutex) _ (ble_disable-IsApp c env b false _ waited) in
      end_round-IsApp _ _ (satellite_session-IsApp fuel _ locked)

  pub main_round-IsApp :
      (fuel : ℕ) (w : AppWorld) → IsApp c w.state → IsApp c (main_round c env fuel w).1.state
  unfolding main_round
  main_round-IsApp fuel w v = round_after-IsApp fuel _ _ (sat_schedule-IsApp c env b fuel w v)

  key_get-IsApp : (w : AppWorld) → IsApp c w.state → IsApp c (key_get c env w).1.state
  unfolding key_get
  key_get-IsApp w v =
      let bytes = env.out w.trace (nvs_read hubble_key_id c.key_size) in
      ground
        (arith, b.reads w.trace hubble_key_id c.key_size, length-memcpy w.state.hubble_key 0 bytes)

  load_key-IsApp : (w : AppWorld) → IsApp c w.state → IsApp c (load_key c env w).1.state
  unfolding load_key
  load_key-IsApp w v =
      let read = key_get-IsApp w v in
      ground (arith, read, crypto_key_set-IsApp c env b c.device_key (key_get c env w).1 read)

  pub boot-IsApp : (w : AppWorld) → IsApp c w.state → IsApp c (boot c env w).1.state
  boot-IsApp w v = boot-keeps c env (IsApp c) w b.others (load_key-IsApp w v)
