-- ===== src/Shell/Commands.antt =====
-- The commands of app/src/shell.c that change something: retransmission, payload, key, bluetooth; and
-- sensor. `argv` lists the words of the line, the command's name first, so `argc` is its length.
use hubble_reference_thingy.Common.{
  ℕ, true, ◌&&◌, ◌||◌, List, [], ltb, ◌==◌, not, if◌then◌else◌, length, get_or,
}
use hubble_reference_thingy.Common.Text.{codes}
use hubble_reference_thingy.Common.Int.{ℤ, pos, neg, is_zero}
use hubble_reference_thingy.Common.Effects.{pure, ◌>>=◌, ◌>>◌, block, emit}
use hubble_reference_thingy.Config.{Config}
use hubble_reference_thingy.App.{
  AppEnv, AppM, needs_0_to_10, invalid_payload, key_usage, invalid_key, ble_usage, invalid_ble,
  sensor_value, sensor_error, shell_mutex, k_mutex_lock, k_mutex_unlock, modify_sat, shell_print,
}
use hubble_reference_thingy.Drivers.Sensor.{sensor_data_get}
use hubble_reference_thingy.Sat.Payload.{custom, sat_retransmission_set, sat_payload_set}
use hubble_reference_thingy.Ble.Switch.{ble_enable, ble_disable}
use hubble_reference_thingy.Main.Key.{crypto_key_set}
use hubble_reference_thingy.Shell.Text.{same_text, begins_with, strtol, to_u8}

abbrev pub Argv : Type 0
Argv = List (List ℕ)

abbrev pub arg : Argv → ℕ → List ℕ
arg argv i = get_or argv i []

-- _sensor_channel_get
unfoldable pub sensor_channel_get : Config → List ℕ → ℕ
unfolding same_text
sensor_channel_get c str =
    if same_text str (codes "temperature")
    then c.ambient_temp
    else if same_text str (codes "pressure")
    then c.press
    else if same_text str (codes "humidity")
    then c.humidity
    else if same_text str (codes "battery")
    then c.gauge_voltage
    else c.chan_max

module _ (c : Config) (env : AppEnv) where
  -- _cmd_retransmission. `freq` is a uint8_t, so that it is never below 0.
  unfoldable pub cmd_retransmission : Argv → AppM ℤ
  unfolding strtol to_u8 sat_retransmission_set
  cmd_retransmission argv =
      let refuse : AppM ℤ = (do emit (shell_print needs_0_to_10); pure (neg c.einval)) in
      let freq = to_u8 (strtol (arg argv 1)) in
      if not (length argv == 2) then refuse else if ltb freq 0 || ltb 10 freq then refuse else do
        block env (k_mutex_lock shell_mutex)
        modify_sat (λ s. (sat_retransmission_set freq s).1)
        emit (k_mutex_unlock shell_mutex)
        pure (pos 0)

  -- what _cmd_payload does under the mutex; the result is its `ret`
  unfoldable pub choose_payload : Argv → AppM ℤ
  unfolding sensor_channel_get begins_with sat_payload_set
  choose_payload argv =
      if length argv == 2
      then (do
        let channel = sensor_channel_get c (arg argv 1)
        modify_sat (λ s. (sat_payload_set channel [] 0 s).1)
        pure (if not (channel == c.chan_max) then pos 0 else neg c.einval))
      else if length argv == 3 && begins_with (codes "custom") (arg argv 1)
      then (if ltb (length (arg argv 2)) 13
          then (do
            modify_sat (λ s. (sat_payload_set custom (arg argv 2) (length (arg argv 2)) s).1)
            pure (pos 0))
          else pure (neg c.einval))
      else pure (neg c.einval)

  -- _cmd_payload, which returns 0 also for an invalid payload
  unfoldable pub cmd_payload : Argv → AppM ℤ
  unfolding choose_payload
  cmd_payload argv = do
    block env (k_mutex_lock shell_mutex)
    ret ← choose_payload argv
    emit (k_mutex_unlock shell_mutex)
    (if not (is_zero ret) then emit (shell_print (invalid_payload (arg argv 1))) else pure tt)
    pure (pos 0)

  -- _cmd_sensor
  unfoldable pub cmd_sensor : Argv → AppM ℤ
  unfolding sensor_channel_get sensor_data_get
  cmd_sensor argv =
      if length argv == 2
      then (do
        r ← sensor_data_get c env (sensor_channel_get c (arg argv 1))
        emit (
            shell_print (
              if is_zero r.0 then sensor_value (arg argv 1) r.1 else sensor_error (arg argv 1) r.0))
        pure r.0)
      else pure (neg c.einval)

  -- _cmd_key
  unfoldable pub cmd_key : Argv → AppM ℤ
  unfolding crypto_key_set
  cmd_key argv =
      if not (length argv == 2) then (do emit (shell_print key_usage); pure (neg c.einval)) else do
        ret ← crypto_key_set c env (arg argv 1)
        (if not (is_zero ret)
            then (do emit (shell_print invalid_key); pure (neg c.einval))
            else pure (pos 0))

  -- _cmd_ble
  unfoldable pub cmd_ble : Argv → AppM ℤ
  unfolding same_text
  cmd_ble argv =
      if not (length argv == 2)
      then (do emit (shell_print ble_usage); pure (neg c.einval))
      else if same_text (arg argv 1) (codes "enable")
      then (do ble_enable c env true; pure (pos 0))
      else if same_text (arg argv 1) (codes "disable")
      then (do ble_disable env true; pure (pos 0))
      else do emit (shell_print (invalid_ble (arg argv 1))); pure (neg c.einval)
