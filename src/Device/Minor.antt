-- ===== src/Device/Minor.antt =====
-- The events of the application core (app/src/*.c) that make only minor calls: neither do they touch the
-- radio or its mutex, nor do they wake main.
use hubble_reference_thingy.Common.{
  ℕ, ◌≡◌, refl, Bool, true, false, not, ◌&&◌, Option, some, List, [], ◌∷◌, arith,
}
use hubble_reference_thingy.Config.{Config}
use hubble_reference_thingy.App.{AppEnv, AppWorld, Call, Timer, sat_timer, ble_timer, led_timer}
use hubble_reference_thingy.App.Locks.{radio_step}
use hubble_reference_thingy.App.Wake.{wake_step}
use hubble_reference_thingy.Drivers.Led.{led_blink_cb, led_stop_cb}
use hubble_reference_thingy.Drivers.Nvs.{nvs_init}
use hubble_reference_thingy.Ipc.{ep_recv, ep_bound}
use hubble_reference_thingy.Ble.Advertise.{timer_ble_cb, connected_cb, disconnected_cb}
use hubble_reference_thingy.Ble.Write.{chr_write_cb}
use hubble_reference_thingy.Main.Key.{crypto_key_set}
use hubble_reference_thingy.Button.{button_pressed, button_init}
use hubble_reference_thingy.Shell.Commands.{
  Argv, cmd_retransmission, choose_payload, cmd_payload, cmd_sensor, cmd_key,
}
use hubble_reference_thingy.Shell.Status.{print_times, print_state, cmd_status, cmd_time}
use hubble_reference_thingy.Device.{
  Command, retransmission, key, payload, status, time, sensor, bluetooth, run_command, Event,
  booted, round, mounted, attached, expires, stops, works, connected, disconnected, written,
  pressed, bound, received, typed, step, stopped,
}

-- free and not used
abbrev pub is_free : Option Bool → Bool
is_free (some false) = true
is_free _ = false

-- the calls that leave the radio and its mutex free, and main asleep
abbrev pub is_minor : Call → Bool
is_minor k = is_free (radio_step k false) && not (wake_step k false)

-- every event but the start-up, rounds of main, the timer of the next pass, the three work items, and
-- the `bluetooth` command
abbrev pub IsMinor : Event → Type 0
IsMinor booted = ⊥
IsMinor (round _) = ⊥
IsMinor (expires sat_timer) = ⊥
IsMinor (works _) = ⊥
IsMinor (typed bluetooth _) = ⊥
IsMinor _ = Unit {0}

-- What any number of minor calls keeps, whatever it is, is kept.
module _ (P : List Call → Type 0)
    (close : (k : Call) (tr : List Call) → is_minor k ≡ true → P tr → P (k ∷ tr)) where
  print_times-minor : (ts : List ℕ) (w : AppWorld) → P w.trace → P (print_times ts w).1.trace
  unfolding print_times
  print_times-minor [] w h = h
  print_times-minor (t ∷ ts) w h = print_times-minor ts _ (close _ _ refl h)

  stopped-minor : (t : Timer) (w : AppWorld) → P w.trace → P (stopped t w).1.trace
  unfolding led_stop_cb
  stopped-minor sat_timer w h = h
  stopped-minor ble_timer w h = h
  stopped-minor led_timer w h = close _ _ refl h

  module _ (c : Config) (env : AppEnv) where
    cmd_retransmission-minor :
        (argv : Argv) (w : AppWorld) → P w.trace → P (cmd_retransmission c env argv w).1.trace
    unfolding cmd_retransmission
    cmd_retransmission-minor argv w h = grind (arith, close)

    choose_payload-trace :
        (argv : Argv) (w : AppWorld) → (choose_payload c env argv w).1.trace ≡ w.trace
    unfolding choose_payload
    choose_payload-trace argv w = ground arith

    cmd_payload-minor :
        (argv : Argv) (w : AppWorld) → P w.trace → P (cmd_payload c env argv w).1.trace
    unfolding cmd_payload
    cmd_payload-minor argv w h = grind (arith, close, choose_payload-trace)

    cmd_sensor-minor :
        (argv : Argv) (w : AppWorld) → P w.trace → P (cmd_sensor c env argv w).1.trace
    unfolding cmd_sensor
    cmd_sensor-minor argv w h = grind (arith, close)

    cmd_key-minor : (argv : Argv) (w : AppWorld) → P w.trace → P (cmd_key c env argv w).1.trace
    unfolding cmd_key crypto_key_set
    cmd_key-minor argv w h = grind (arith, close)

    print_state-minor : (w : AppWorld) → P w.trace → P (print_state c env w).1.trace
    unfolding print_state
    print_state-minor w h = grind (arith, close, print_times-minor)

    cmd_status-minor : (w : AppWorld) → P w.trace → P (cmd_status c env w).1.trace
    unfolding cmd_status
    cmd_status-minor w h = grind (arith, close, print_state-minor)

    cmd_time-minor : (w : AppWorld) → P w.trace → P (cmd_time c env w).1.trace
    unfolding cmd_time
    cmd_time-minor w h = grind (arith, close)

    chr_write_cb-minor :
        (req : List ℕ) (len : ℕ) (prepare : Bool) (w : AppWorld)
        → P w.trace
        → P (chr_write_cb c env req len prepare w).1.trace
    unfolding chr_write_cb
    chr_write_cb-minor req len prepare w h = grind (arith, close)

    nvs_init-minor : (size : ℕ) (w : AppWorld) → P w.trace → P (nvs_init env size w).1.trace
    unfolding nvs_init
    nvs_init-minor size w h = grind (arith, close)

    button_init-minor : (w : AppWorld) → P w.trace → P (button_init env w).1.trace
    unfolding button_init
    button_init-minor w h = grind (arith, close)

    run_command-minor :
        (k : Command) (argv : Argv) (w : AppWorld)
        → IsMinor (typed k argv)
        → P w.trace
        → P (run_command c env k argv w).1.trace
    run_command-minor retransmission argv w m h = cmd_retransmission-minor argv w h
    run_command-minor key argv w m h = cmd_key-minor argv w h
    run_command-minor payload argv w m h = cmd_payload-minor argv w h
    run_command-minor status argv w m h = cmd_status-minor w h
    run_command-minor time argv w m h = cmd_time-minor w h
    run_command-minor sensor argv w m h = cmd_sensor-minor argv w h
    run_command-minor bluetooth argv w m h = absurd m

    pub step-minor : (e : Event) (w : AppWorld) → IsMinor e → P w.trace → P (step c env e w).1.trace
    unfolding connected_cb disconnected_cb button_pressed ep_bound ep_recv timer_ble_cb led_blink_cb
    step-minor booted w m h = absurd m
    step-minor (round fuel) w m h = absurd m
    step-minor (mounted size) w m h = nvs_init-minor size w h
    step-minor attached w m h = button_init-minor w h
    step-minor (expires sat_timer) w m h = absurd m
    step-minor (expires ble_timer) w m h = close _ _ refl h
    step-minor (expires led_timer) w m h = close _ _ refl h
    step-minor (stops t) w m h = stopped-minor t w h
    step-minor (works k) w m h = absurd m
    step-minor connected w m h = close _ _ refl h
    step-minor disconnected w m h = grind (arith, close)
    step-minor (written req len prepare) w m h = chr_write_cb-minor req len prepare w h
    step-minor pressed w m h = close _ _ refl h
    step-minor bound w m h = close _ _ refl h
    step-minor (received cmd) w m h = grind (arith, close)
    step-minor (typed k argv) w m h = run_command-minor k argv w m h
