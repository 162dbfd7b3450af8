-- ===== src/Device/Steady.antt =====
-- What the events of the application core (app/src/*.c) that come in while main transmits leave of the
-- pass table and of the interval between packets.
use hubble_reference_thingy.Common.{ℕ, List, [], ◌∷◌, arith}
use hubble_reference_thingy.Config.{Config}
use hubble_reference_thingy.App.{
  App, AppEnv, AppWorld, Call, Sat, Timer, sat_timer, ble_timer, led_timer,
}
use hubble_reference_thingy.Drivers.Led.{led_blink_cb, led_stop_cb}
use hubble_reference_thingy.Drivers.Nvs.{nvs_init}
use hubble_reference_thingy.Ipc.{ep_recv, ep_bound}
use hubble_reference_thingy.Sat.Schedule.{timer_cb}
use hubble_reference_thingy.Ble.Advertise.{timer_ble_cb, connected_cb, disconnected_cb}
use hubble_reference_thingy.Button.{button_pressed, button_init}
use hubble_reference_thingy.Shell.Commands.{Argv}
use hubble_reference_thingy.Shell.Report.{cmd_status-same, cmd_time-same}
use hubble_reference_thingy.Device.{
  Command, retransmission, key, payload, status, time, sensor, bluetooth, run_command, Event,
  booted, round, mounted, attached, expires, stops, works, connected, disconnected, written,
  pressed, bound, received, typed, step, run, expire, stopped,
}
use hubble_reference_thingy.Device.Kept.{
  IsKept, chr_write_cb-keeps, cmd_payload-keeps, cmd_ble-keeps, cmd_key-keeps, cmd_sensor-keeps,
  run_work-keeps,
}

-- every event but main's own, and the command that sets the interval
abbrev pub IsSteady : Event → Type 0
IsSteady booted = ⊥
IsSteady (round _) = ⊥
IsSteady (typed retransmission _) = ⊥
IsSteady _ = Unit {0}

abbrev pub AreSteady : List Event → Type 0
AreSteady [] = Unit {0}
AreSteady (e ∷ es) = IsSteady e × AreSteady es

module _ (c : Config) (P : Sat → Type 0) (k : IsKept c P) (env : AppEnv)
    (others : (tr : List Call) (k : Call) (a : App) → P a.sat → P (env.others tr k a).sat) where
  run_command-keeps :
      (t : Command) (argv : Argv) (w : AppWorld)
      → IsSteady (typed t argv)
      → P w.state.sat
      → P (run_command c env t argv w).1.state.sat
  run_command-keeps retransmission argv w i h = absurd i
  run_command-keeps key argv w i h = cmd_key-keeps c P k env others argv w h
  run_command-keeps payload argv w i h = cmd_payload-keeps c P k env others argv w h
  run_command-keeps status argv w i h = rw (cmd_status-same c env w) h
  run_command-keeps time argv w i h = rw (cmd_time-same c env w) h
  run_command-keeps sensor argv w i h = cmd_sensor-keeps c P k env others argv w h
  run_command-keeps bluetooth argv w i h = cmd_ble-keeps c P k env others argv w h

  expire-keeps : (t : Timer) (w : AppWorld) → P w.state.sat → P (expire t w).1.state.sat
  unfolding timer_cb timer_ble_cb led_blink_cb
  expire-keeps sat_timer w h = h
  expire-keeps ble_timer w h = h
  expire-keeps led_timer w h = h

  stopped-keeps : (t : Timer) (w : AppWorld) → P w.state.sat → P (stopped t w).1.state.sat
  unfolding led_stop_cb
  stopped-keeps sat_timer w h = h
  stopped-keeps ble_timer w h = h
  stopped-keeps led_timer w h = h

  nvs_init-keeps : (size : ℕ) (w : AppWorld) → P w.state.sat → P (nvs_init env size w).1.state.sat
  unfolding nvs_init
  nvs_init-keeps size w h = ground arith

  button_init-keeps : (w : AppWorld) → P w.state.sat → P (button_init env w).1.state.sat
  unfolding button_init
  button_init-keeps w h = ground arith

  step-keeps :
      (e : Event) (w : AppWorld) → IsSteady e → P w.state.sat → P (step c env e w).1.state.sat
  unfolding connected_cb disconnected_cb button_pressed ep_bound ep_recv
  step-keeps booted w i h = absurd i
  step-keeps (round fuel) w i h = absurd i
  step-keeps (mounted size) w i h = nvs_init-keeps size w h
  step-keeps attached w i h = button_init-keeps w h
  step-keeps (expires t) w i h = expire-keeps t w h
  step-keeps (stops t) w i h = stopped-keeps t w h
  step-keeps (works t) w i h = run_work-keeps c P k env others t w h
  step-keeps connected w i h = h
  step-keeps disconnected w i h = ground arith
  step-keeps (written req len prepare) w i h = chr_write_cb-keeps c P k env req len prepare w h
  step-keeps pressed w i h = h
  step-keeps bound w i h = h
  step-keeps (received cmd) w i h = ground arith
  step-keeps (typed t argv) w i h = run_command-keeps t argv w i h

  -- Any number of these events keep what they keep one by one.
  pub run-keeps :
      (es : List Event) (w : AppWorld)
      → AreSteady es
      → P w.state.sat
      → P (run c env es w).1.state.sat
  run-keeps [] w i h = h
  run-keeps (e ∷ es) w i h = run-keeps es _ i.1 (step-keeps e w i.0 h)
