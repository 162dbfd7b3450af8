-- ===== src/Device/Kept.antt =====
-- What the GATT writes, commands and work items of the application core (app/src/ble.c, shell.c and
-- button.c) keep of the globals of app/src/sat_board.c.
use hubble_reference_thingy.Common.{
  ℕ, zero, suc, ◌-◌, Bool, true, List, [], ◌∷◌, drop, length, arith,
}
use hubble_reference_thingy.Common.Effects.{block}
use hubble_reference_thingy.Config.{Config}
use hubble_reference_thingy.App.{
  App, AppEnv, AppWorld, Call, Sat, Work, ble_work, provisioning_work, button_work, k_mutex_lock,
  shell_mutex, bt_is_ready,
}
use hubble_reference_thingy.Sat.Passes.{sat_pass_add}
use hubble_reference_thingy.Sat.Payload.{sat_payload_set, exactly, custom}
use hubble_reference_thingy.Ble.Advertise.{
  ble_init, ble_adv_start, ble_adv_stop, ble_work_handler, adv_provisioning_work_handler,
}
use hubble_reference_thingy.Ble.Write.{
  le_value, entry_size, add_entries, set_ephemeris, device_location_set, chr_write_cb,
}
use hubble_reference_thingy.Main.Key.{crypto_key_set}
use hubble_reference_thingy.Main.Quiet.{ble_enable-keeps, ble_disable-keeps}
use hubble_reference_thingy.Button.{button_pressed_worker}
use hubble_reference_thingy.Shell.Commands.{
  Argv, arg, sensor_channel_get, choose_payload, cmd_payload, cmd_sensor, cmd_key, cmd_ble,
}
use hubble_reference_thingy.Device.{run_work}

-- What the calls into app/src/sat_board.c that such events make keep, and the threads that run
-- meanwhile.
pub record IsKept (c : Config) (P : Sat → Type 0) : Type 0 where
  pub adds : (t d : ℕ) (s : Sat) → P s → P (sat_pass_add c t d s).1
  pub places : (lat lon : List ℕ) (s : Sat) → P s → P (device_location_set c lat lon s)
  pub loads :
      (type : ℕ) (bytes : List ℕ) (len : ℕ) (s : Sat) → P s → P (sat_payload_set type bytes len s).1

module _ (c : Config) (P : Sat → Type 0) (k : IsKept c P) where
  add_entries-keeps :
      (count available : ℕ) (p : List ℕ) (s : Sat) → P s → P (add_entries c count available p s)
  unfolding add_entries
  add_entries-keeps zero available p s h = h
  add_entries-keeps (suc count) available p s h = ground (
    arith,
    k.adds (le_value 4 p) (le_value 2 (drop 4 p)) s h,
    add_entries-keeps count (available - entry_size) (drop entry_size p)
        (sat_pass_add c (le_value 4 p) (le_value 2 (drop 4 p)) s).1,
  )

  set_ephemeris-keeps : (req : List ℕ) (len : ℕ) (s : Sat) → P s → P (set_ephemeris c req len s)
  unfolding set_ephemeris
  set_ephemeris-keeps req len s h =
      ground (arith, add_entries-keeps (le_value 4 (drop 2 req)) (len - 2 - 4) (drop 6 req) s h)

  module _ (env : AppEnv) where
    pub chr_write_cb-keeps :
        (req : List ℕ) (len : ℕ) (prepare : Bool) (w : AppWorld)
        → P w.state.sat
        → P (chr_write_cb c env req len prepare w).1.state.sat
    unfolding chr_write_cb
    chr_write_cb-keeps req len prepare w h = ground (
      arith,
      set_ephemeris-keeps req len w.state.sat h,
      k.places (exactly 8 (drop 2 req)) (exactly 8 (drop 10 req)) w.state.sat h,
    )

    choose_payload-keeps :
        (argv : Argv) (w : AppWorld) → P w.state.sat → P (choose_payload c env argv w).1.state.sat
    unfolding choose_payload
    choose_payload-keeps argv w h =
        let text = arg argv 2 in
        ground (
          arith,
          k.loads (sensor_channel_get c (arg argv 1)) [] 0 w.state.sat h,
          k.loads custom text (length text) w.state.sat h,
        )

    module _
        (others : (tr : List Call) (k : Call) (a : App) → P a.sat → P (env.others tr k a).sat) where
      pub cmd_payload-keeps :
          (argv : Argv) (w : AppWorld) → P w.state.sat → P (cmd_payload c env argv w).1.state.sat
      unfolding cmd_payload
      cmd_payload-keeps argv w h =
          let lock = k_mutex_lock shell_mutex in
          let locked : AppWorld = (block env lock w).1 in
          ground (arith, choose_payload-keeps argv locked (others w.trace lock w.state h))

      -- what runs without the table
      button_pressed_worker-keeps :
          (w : AppWorld) → P w.state.sat → P (button_pressed_worker c env w).1.state.sat
      unfolding button_pressed_worker
      button_pressed_worker-keeps w h =
          let w' : AppWorld = record w { trace = bt_is_ready ∷ w.trace } in
          ground (
            arith,
            ble_enable-keeps c env P others true w' h,
            ble_disable-keeps c env P others true w' h,
          )

      pub cmd_ble-keeps :
          (argv : Argv) (w : AppWorld) → P w.state.sat → P (cmd_ble c env argv w).1.state.sat
      unfolding cmd_ble
      cmd_ble-keeps argv w h = ground (
        arith,
        ble_enable-keeps c env P others true w h,
        ble_disable-keeps c env P others true w h,
      )

      pub cmd_key-keeps :
          (argv : Argv) (w : AppWorld) → P w.state.sat → P (cmd_key c env argv w).1.state.sat
      unfolding cmd_key crypto_key_set
      cmd_key-keeps argv w h = ground arith

      pub cmd_sensor-keeps :
          (argv : Argv) (w : AppWorld) → P w.state.sat → P (cmd_sensor c env argv w).1.state.sat
      unfolding cmd_sensor
      cmd_sensor-keeps argv w h = ground arith

      pub run_work-keeps :
          (t : Work) (w : AppWorld) → P w.state.sat → P (run_work c env t w).1.state.sat
      unfolding adv_provisioning_work_handler ble_init ble_work_handler ble_adv_stop ble_adv_start
      run_work-keeps ble_work w h = ground arith
      run_work-keeps provisioning_work w h = h
      run_work-keeps button_work w h = button_pressed_worker-keeps w h
