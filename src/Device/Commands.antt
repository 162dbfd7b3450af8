-- ===== src/Device/Commands.antt =====
-- The commands of app/src/shell.c and the bounds of the globals.
use hubble_reference_thingy.Common.{ℕ, ◌≤◌, ◌<◌, true, List, [], ◌∷◌, length, length-memcpy, arith}
use hubble_reference_thingy.Config.{Config}
use hubble_reference_thingy.App.{AppEnv, AppWorld, shell_mutex, k_mutex_lock, base64_decode}
use hubble_reference_thingy.Sat.Payload.{sat_payload_set, custom}
use hubble_reference_thingy.Main.Key.{crypto_key_set}
use hubble_reference_thingy.Shell.Commands.{
  Argv, arg, sensor_channel_get, cmd_retransmission, choose_payload, cmd_payload, cmd_sensor,
  cmd_key, cmd_ble,
}
use hubble_reference_thingy.Device.State.{IsSat, IsApp, IsWithinBounds}
use hubble_reference_thingy.Device.Satellite.{sat_payload_set-IsSat}
use hubble_reference_thingy.Device.Bluetooth.{ble_enable-IsApp, ble_disable-IsApp}

module _ (c : Config) (env : AppEnv) (b : IsWithinBounds c env) where
  pub crypto_key_set-IsApp :
      (key : List ℕ) (w : AppWorld) → IsApp c w.state → IsApp c (crypto_key_set c env key w).1.state
  unfolding crypto_key_set
  crypto_key_set-IsApp key w v =
      let text = env.out w.trace (base64_decode key) in
      ground (arith, b.decodes w.trace key, length-memcpy w.state.hubble_key 0 text)

  pub cmd_key-IsApp :
      (argv : Argv) (w : AppWorld) → IsApp c w.state → IsApp c (cmd_key c env argv w).1.state
  unfolding cmd_key
  cmd_key-IsApp argv w v = ground (arith, crypto_key_set-IsApp (arg argv 1) w v)

  pub cmd_retransmission-IsApp :
      (argv : Argv) (w : AppWorld)
      → IsApp c w.state
      → IsApp c (cmd_retransmission c env argv w).1.state
  unfolding cmd_retransmission
  cmd_retransmission-IsApp argv w v =
      ground (arith, b.others w.trace (k_mutex_lock shell_mutex) w.state v)

  choose_payload-IsApp :
      (argv : Argv) (w : AppWorld)
      → 13 ≤ c.payload_max
      → IsApp c w.state
      → IsApp c (choose_payload c env argv w).1.state
  unfolding choose_payload
  choose_payload-IsApp argv w room v =
      let text = arg argv 2 in
      let channel = sensor_channel_get c (arg argv 1) in
      let own : length text < 13
          → IsSat c.payload_max (sat_payload_set custom text (length text) w.state.sat).1 =
        λ h. sat_payload_set-IsSat c.payload_max custom text (length text) h room v.sat in
      ground (arith, sat_payload_set-IsSat c.payload_max channel [] 0 (omega arith) room v.sat, own)

  pub cmd_payload-IsApp :
      (argv : Argv) (w : AppWorld)
      → 13 ≤ c.payload_max
      → IsApp c w.state
      → IsApp c (cmd_payload c env argv w).1.state
  unfolding cmd_payload
  cmd_payload-IsApp argv w room v =
      let w' : AppWorld = record {
        state = env.others w.trace (k_mutex_lock shell_mutex) w.state;
        trace = k_mutex_lock shell_mutex ∷ w.trace;
      } in
      ground (
        arith,
        choose_payload-IsApp argv w' room (b.others w.trace (k_mutex_lock shell_mutex) w.state v),
      )

  pub cmd_sensor-IsApp :
      (argv : Argv) (w : AppWorld) → IsApp c w.state → IsApp c (cmd_sensor c env argv w).1.state
  unfolding cmd_sensor
  cmd_sensor-IsApp argv w v = ground arith

  pub cmd_ble-IsApp :
      (argv : Argv) (w : AppWorld) → IsApp c w.state → IsApp c (cmd_ble c env argv w).1.state
  unfolding cmd_ble
  cmd_ble-IsApp argv w v =
      ground (arith, ble_enable-IsApp c env b true w v, ble_disable-IsApp c env b true w v)
