-- ===== src/Device.antt =====
-- What runs the application core, as the kernel sees it: the timers, work items, callbacks, shell
-- commands and init functions that its sources register (app/src/*.c), each with its function.
pub mod State
pub mod Satellite
pub mod Bluetooth
pub mod Commands
pub mod Program
pub mod Safe
pub mod Interleaved
pub mod Minor
pub mod Radio
pub mod Asleep
pub mod Packet
pub mod Kept
pub mod Steady
pub mod Serving
pub mod EveryPass
pub mod Transmitted
pub mod Tests
pub mod RoundTests
use hubble_reference_thingy.Common.{ℕ, Bool, true, ◌&&◌, List, [], ◌∷◌}
use hubble_reference_thingy.Common.Int.{ℤ}
use hubble_reference_thingy.Common.Effects.{pure}
use hubble_reference_thingy.Config.{Config}
use hubble_reference_thingy.SatIpc.{SatCommand}
use hubble_reference_thingy.App.{
  AppEnv, AppM, AppWorld, Timer, sat_timer, ble_timer, led_timer, Work, ble_work, provisioning_work,
  button_work,
}
use hubble_reference_thingy.Drivers.Led.{led_blink_cb, led_stop_cb}
use hubble_reference_thingy.Drivers.Nvs.{nvs_init}
use hubble_reference_thingy.Sat.Schedule.{timer_cb}
use hubble_reference_thingy.Ipc.{ep_cfg}
use hubble_reference_thingy.Ble.Advertise.{
  timer_ble_cb, ble_work_handler, adv_provisioning_work_handler,
}
use hubble_reference_thingy.Ble.Service.{vnd_svc, conn_callbacks}
use hubble_reference_thingy.Button.{button_pressed_worker, button_pressed, button_init}
use hubble_reference_thingy.Shell.Commands.{
  Argv, cmd_retransmission, cmd_payload, cmd_sensor, cmd_key, cmd_ble,
}
use hubble_reference_thingy.Shell.Status.{cmd_status, cmd_time}
use hubble_reference_thingy.Main.Loop.{boot, main_round}

-- the K_TIMER_DEFINEs of sat_board.c, ble.c and led.c: the expiry functions, and the stop functions
abbrev pub expire : Timer → AppM (Unit {0})
expire sat_timer = timer_cb
expire ble_timer = timer_ble_cb
expire led_timer = led_blink_cb

abbrev pub stopped : Timer → AppM (Unit {0})
stopped led_timer = led_stop_cb
stopped _ = pure tt

-- the words of the SHELL_CMD_REGISTERs of shell.c
pub data Command : Type 0 where
  retransmission key payload status time sensor bluetooth : Command

pub data Event : Type 0 where
  -- main, up to its loop, and a round of the loop with the fuel for the loops in it
  booted : Event
  round : ℕ → Event
  -- the SYS_INITs of nvs.c, with the size of the partition, and of button.c
  mounted : ℕ → Event
  attached : Event
  expires stops : Timer → Event
  works : Work → Event
  connected disconnected : Event
  -- a write to the characteristic: the memory, the length, and whether it is prepared
  written : List ℕ → ℕ → Bool → Event
  -- the button's interrupt
  pressed : Event
  -- the endpoint of the satellite channel
  bound : Event
  received : SatCommand → Event
  typed : Command → Argv → Event

module _ (c : Config) (env : AppEnv) where
  -- the K_WORK_DEFINEs of ble.c and the k_work_init of button.c
  abbrev pub run_work : Work → AppM (Unit {0})
  run_work ble_work = ble_work_handler c env
  run_work provisioning_work = adv_provisioning_work_handler env
  run_work button_work = button_pressed_worker c env

  abbrev pub run_command : Command → Argv → AppM ℤ
  run_command retransmission argv = cmd_retransmission c env argv
  run_command key argv = cmd_key c env argv
  run_command payload argv = cmd_payload c env argv
  run_command status argv = cmd_status c env
  run_command time argv = cmd_time c env
  run_command sensor argv = cmd_sensor c env argv
  run_command bluetooth argv = cmd_ble c env argv

  -- what an event makes of the world, and whether its loops came to an end
  abbrev pub step : Event → AppWorld → Bool × AppWorld
  step booted w = (true, (boot c env w).1)
  step (round fuel) w = main_round c env fuel w
  step (mounted size) w = (true, (nvs_init env size w).1)
  step attached w = (true, (button_init env w).1)
  step (expires t) w = (true, (expire t w).1)
  step (stops t) w = (true, (stopped t w).1)
  step (works k) w = (true, (run_work k w).1)
  step connected w = (true, (conn_callbacks.connected w).1)
  step disconnected w = (true, (conn_callbacks.disconnected w).1)
  step (written req len prepare) w = (true, ((vnd_svc c env).write_cb req len prepare w).1)
  step pressed w = (true, (button_pressed w).1)
  step bound w = (true, (ep_cfg.bound w).1)
  step (received cmd) w = (true, (ep_cfg.received cmd w).1)
  step (typed cmd argv) w = (true, (run_command cmd argv w).1)

  abbrev pub run : List Event → AppWorld → Bool × AppWorld
  run [] w = (true, w)
  run (e ∷ es) w =
      let (complete, w') = step e w in let (rest, w'') = run es w' in (complete && rest, w'')
