-- ===== src/Device/Safe.antt =====
-- No step of the application core (app/src/*.c) leaves a global array, an index or a number outside
-- its bounds.
use hubble_reference_thingy.Common.{ℕ, ◌≤◌, List, [], ◌∷◌, arith}
use hubble_reference_thingy.Config.{Config}
use hubble_reference_thingy.App.{
  AppEnv, AppWorld, Timer, sat_timer, ble_timer, led_timer, Work, ble_work, provisioning_work,
  button_work,
}
use hubble_reference_thingy.Drivers.Led.{led_blink_cb, led_stop_cb}
use hubble_reference_thingy.Drivers.Nvs.{nvs_init}
use hubble_reference_thingy.Ipc.{ep_recv, ep_bound}
use hubble_reference_thingy.Sat.Schedule.{timer_cb}
use hubble_reference_thingy.Ble.Advertise.{
  timer_ble_cb, connected_cb, disconnected_cb, ble_init, adv_provisioning_work_handler,
}
use hubble_reference_thingy.Button.{button_pressed, button_init}
use hubble_reference_thingy.Shell.Commands.{Argv}
use hubble_reference_thingy.Device.State.{IsApp, IsWithinBounds, AreBytes}
use hubble_reference_thingy.Device.Bluetooth.{
  ble_work_handler-IsApp, button_pressed_worker-IsApp, chr_write_cb-IsApp,
}
use hubble_reference_thingy.Device.Commands.{
  cmd_key-IsApp, cmd_retransmission-IsApp, cmd_payload-IsApp, cmd_sensor-IsApp, cmd_ble-IsApp,
}
use hubble_reference_thingy.Shell.Report.{cmd_status-same, cmd_time-same}
use hubble_reference_thingy.Device.Program.{main_round-IsApp, boot-IsApp}
use hubble_reference_thingy.Device.{
  Command, retransmission, key, payload, status, time, sensor, bluetooth, run_command, Event,
  booted, round, mounted, attached, expires, stops, works, connected, disconnected, written,
  pressed, bound, received, typed, step, run, run_work, expire, stopped,
}

-- what the memory behind a write holds are bytes
abbrev pub IsEvent : Event → Type 0
IsEvent (written req len prepare) = AreBytes req
IsEvent _ = Unit {0}

abbrev pub AreEvents : List Event → Type 0
AreEvents [] = Unit {0}
AreEvents (e ∷ es) = IsEvent e × AreEvents es

module _ (c : Config) (env : AppEnv) where
  nvs_init-IsApp :
      (size : ℕ) (w : AppWorld) → IsApp c w.state → IsApp c (nvs_init env size w).1.state
  unfolding nvs_init
  nvs_init-IsApp size w v = ground arith

  button_init-IsApp : (w : AppWorld) → IsApp c w.state → IsApp c (button_init env w).1.state
  unfolding button_init
  button_init-IsApp w v = ground arith

module _ (c : Config) (env : AppEnv) (b : IsWithinBounds c env) where
  run_work-IsApp :
      (k : Work) (w : AppWorld) → IsApp c w.state → IsApp c (run_work c env k w).1.state
  unfolding adv_provisioning_work_handler ble_init
  run_work-IsApp ble_work w v = ble_work_handler-IsApp c env b w v
  run_work-IsApp provisioning_work w v = v
  run_work-IsApp button_work w v = button_pressed_worker-IsApp c env b w v

  run_command-IsApp :
      (k : Command) (argv : Argv) (w : AppWorld)
      → 13 ≤ c.payload_max
      → IsApp c w.state
      → IsApp c (run_command c env k argv w).1.state
  run_command-IsApp retransmission argv w room v = cmd_retransmission-IsApp c env b argv w v
  run_command-IsApp key argv w room v = cmd_key-IsApp c env b argv w v
  run_command-IsApp payload argv w room v = cmd_payload-IsApp c env b argv w room v
  run_command-IsApp status argv w room v = rw (cmd_status-same c env w) v
  run_command-IsApp time argv w room v = rw (cmd_time-same c env w) v
  run_command-IsApp sensor argv w room v = cmd_sensor-IsApp c env b argv w v
  run_command-IsApp bluetooth argv w room v = cmd_ble-IsApp c env b argv w v

  expire-IsApp : (t : Timer) (w : AppWorld) → IsApp c w.state → IsApp c (expire t w).1.state
  unfolding timer_cb timer_ble_cb led_blink_cb
  expire-IsApp sat_timer w v = v
  expire-IsApp ble_timer w v = v
  expire-IsApp led_timer w v = v

  stopped-IsApp : (t : Timer) (w : AppWorld) → IsApp c w.state → IsApp c (stopped t w).1.state
  unfolding led_stop_cb
  stopped-IsApp sat_timer w v = v
  stopped-IsApp ble_timer w v = v
  stopped-IsApp led_timer w v = v

  step-IsApp :
      (e : Event) (w : AppWorld)
      → 13 ≤ c.payload_max
      → IsEvent e
      → IsApp c w.state
      → IsApp c (step c env e w).1.state
  unfolding connected_cb disconnected_cb button_pressed ep_bound ep_recv
  step-IsApp booted w room a v = boot-IsApp c env b w v
  step-IsApp (round fuel) w room a v = main_round-IsApp c env b fuel w v
  step-IsApp (mounted size) w room a v = nvs_init-IsApp c env size w v
  step-IsApp attached w room a v = button_init-IsApp c env w v
  step-IsApp (expires t) w room a v = expire-IsApp t w v
  step-IsApp (stops t) w room a v = stopped-IsApp t w v
  step-IsApp (works k) w room a v = run_work-IsApp k w v
  step-IsApp connected w room a v = v
  step-IsApp disconnected w room a v = ground arith
  step-IsApp (written req len prepare) w room a v = chr_write_cb-IsApp c env req len prepare w a v
  step-IsApp pressed w room a v = v
  step-IsApp bound w room a v = v
  step-IsApp (received cmd) w room a v = ground arith
  step-IsApp (typed k argv) w room a v = run_command-IsApp k argv w room v

  -- From globals within their bounds, no sequence of events of the application core, in any order,
  -- leaves them: every array keeps its length, the indices of the pass table and the advertised
  -- part of the buffer stay inside, and the numbers fit their C types. The calls that write into a
  -- buffer are taken to keep to the size that they are given, the threads that run while a call
  -- blocks to keep the bounds, the memory of a write to hold bytes, and the payload to have at
  -- least 13 bytes.
  pub run-IsApp :
      (es : List Event) (w : AppWorld)
      → 13 ≤ c.payload_max
      → AreEvents es
      → IsApp c w.state
      → IsApp c (run c env es w).1.state
  run-IsApp [] w room a v = v
  run-IsApp (e ∷ es) w room a v = run-IsApp es _ room a.1 (step-IsApp e w room a.0 v)
