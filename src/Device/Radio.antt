-- ===== src/Device/Radio.antt =====
-- Who switches Bluetooth and the network core (app/src/*.c), and the mutex that they share.
use hubble_reference_thingy.Common.{◌≡◌, refl, true, false, some, List, [], ◌∷◌, arith}
use hubble_reference_thingy.Config.{Config}
use hubble_reference_thingy.App.{
  AppEnv, AppWorld, Call, sat_timer, ble_timer, led_timer, ble_work, provisioning_work, button_work,
}
use hubble_reference_thingy.App.Locks.{radio}
use hubble_reference_thingy.Sat.Schedule.{timer_cb}
use hubble_reference_thingy.Ble.Radio.{ble_enable-radio, ble_disable-radio}
use hubble_reference_thingy.Main.Radio.{main_round-radio, button_pressed_worker-radio}
use hubble_reference_thingy.Shell.Commands.{Argv, cmd_ble}
use hubble_reference_thingy.Device.Minor.{is_minor, IsMinor, step-minor}
use hubble_reference_thingy.Device.{
  retransmission, key, payload, status, time, sensor, bluetooth, Event, booted, round, mounted,
  attached, expires, stops, works, connected, disconnected, written, pressed, bound, received,
  typed, step, run,
}

-- every event but the start-up and the two work items that advertise
abbrev pub IsLocked : Event → Type 0
IsLocked booted = ⊥
IsLocked (works ble_work) = ⊥
IsLocked (works provisioning_work) = ⊥
IsLocked _ = Unit {0}

abbrev pub AreLocked : List Event → Type 0
AreLocked [] = Unit {0}
AreLocked (e ∷ es) = IsLocked e × AreLocked es

radio-minor :
    (k : Call) (tr : List Call)
    → is_minor k ≡ true
    → radio tr ≡ some false
    → radio (k ∷ tr) ≡ some false
radio-minor k tr m h = rw h (ground (arith, m))

module _ (c : Config) (env : AppEnv) where
  cmd_ble-radio :
      (argv : Argv) (w : AppWorld)
      → radio w.trace ≡ some false
      → radio (cmd_ble c env argv w).1.trace ≡ some false
  unfolding cmd_ble
  cmd_ble-radio argv w h = grind (arith, ble_enable-radio, ble_disable-radio)

  minor-radio :
      (e : Event) (w : AppWorld)
      → IsMinor e
      → radio w.trace ≡ some false
      → radio (step c env e w).1.trace ≡ some false
  minor-radio e w m h = step-minor (λ tr. radio tr ≡ some false) radio-minor c env e w m h

  step-radio :
      (e : Event) (w : AppWorld)
      → IsLocked e
      → radio w.trace ≡ some false
      → (step c env e w).0 ≡ true
      → radio (step c env e w).1.trace ≡ some false
  unfolding timer_cb
  step-radio booted w l h complete = absurd l
  step-radio (round fuel) w l h complete = main_round-radio c env fuel w h complete
  step-radio (expires sat_timer) w l h complete = rw h refl
  step-radio (works ble_work) w l h complete = absurd l
  step-radio (works provisioning_work) w l h complete = absurd l
  step-radio (works button_work) w l h complete = button_pressed_worker-radio c env w h
  step-radio (typed bluetooth argv) w l h complete = cmd_ble-radio argv w h
  step-radio (mounted size) w l h complete = minor-radio (mounted size) w tt h
  step-radio attached w l h complete = minor-radio attached w tt h
  step-radio (expires ble_timer) w l h complete = minor-radio (expires ble_timer) w tt h
  step-radio (expires led_timer) w l h complete = minor-radio (expires led_timer) w tt h
  step-radio (stops t) w l h complete = minor-radio (stops t) w tt h
  step-radio connected w l h complete = minor-radio connected w tt h
  step-radio disconnected w l h complete = minor-radio disconnected w tt h
  step-radio (written req len prepare) w l h complete = minor-radio (written req len prepare) w tt h
  step-radio pressed w l h complete = minor-radio pressed w tt h
  step-radio bound w l h complete = minor-radio bound w tt h
  step-radio (received cmd) w l h complete = minor-radio (received cmd) w tt h
  step-radio (typed retransmission argv) w l h complete =
      minor-radio (typed retransmission argv) w tt h
  step-radio (typed key argv) w l h complete = minor-radio (typed key argv) w tt h
  step-radio (typed payload argv) w l h complete = minor-radio (typed payload argv) w tt h
  step-radio (typed status argv) w l h complete = minor-radio (typed status argv) w tt h
  step-radio (typed time argv) w l h complete = minor-radio (typed time argv) w tt h
  step-radio (typed sensor argv) w l h complete = minor-radio (typed sensor argv) w tt h

  -- Events of the application core in any order, but for the start-up and the two work items that
  -- advertise, keep to the radio's mutex: where the rounds of main complete, Bluetooth and the
  -- network core are used only while it is held, it is never locked twice, and it is free after
  -- each of them.
  pub run-radio :
      (es : List Event) (w : AppWorld)
      → AreLocked es
      → radio w.trace ≡ some false
      → (run c env es w).0 ≡ true
      → radio (run c env es w).1.trace ≡ some false
  run-radio [] w l h complete = h
  run-radio (e ∷ es) w l h complete =
      let both : ((step c env e w).0 ≡ true) × ((run c env es (step c env e w).1).0 ≡ true) =
        ground (arith, complete) in
      run-radio es _ l.1 (step-radio e w l.0 h both.0) both.1
