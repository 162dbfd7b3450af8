-- ===== src/Device/Asleep.antt =====
-- What becomes of main (app/src/main.c) when its scheduling finds no pass: it waits for a timer that
-- nobody starts.
use hubble_reference_thingy.Common.{
  ℕ, zero, suc, ◌≡◌, refl, ◌∙◌, true, false, some, List, [], ◌∷◌, arith,
}
use hubble_reference_thingy.Common.Int.{negsuc}
use hubble_reference_thingy.Config.{Config}
use hubble_reference_thingy.App.{
  AppEnv, AppWorld, Call, sat_timer, ble_timer, led_timer, ble_work, provisioning_work, button_work,
  hubble_time_get,
}
use hubble_reference_thingy.App.Wake.{may_wake}
use hubble_reference_thingy.Ble.Advertise.{
  ble_init, ble_adv_start, ble_adv_stop, ble_work_handler, adv_provisioning_work_handler,
}
use hubble_reference_thingy.Ble.Switch.{ble_enable}
use hubble_reference_thingy.Ble.Wake.{ble_enable-may_wake, ble_disable-may_wake}
use hubble_reference_thingy.Button.{button_pressed_worker}
use hubble_reference_thingy.Sat.Schedule.{
  find_pass, schedule_from_table, sat_schedule_next_transmission, end_of,
}
use hubble_reference_thingy.Sat.Schedule.Predicted.{reply, asked}
use hubble_reference_thingy.Shell.Commands.{Argv, cmd_ble}
use hubble_reference_thingy.Device.Minor.{is_minor, IsMinor, step-minor}
use hubble_reference_thingy.Device.{
  retransmission, key, payload, status, time, sensor, bluetooth, Event, booted, round, mounted,
  attached, expires, stops, works, connected, disconnected, written, pressed, bound, received,
  typed, step, run,
}

-- what can happen while main waits: every event but main's own and the expiry of `sat_timer`
abbrev pub IsMeanwhile : Event → Type 0
IsMeanwhile booted = ⊥
IsMeanwhile (round _) = ⊥
IsMeanwhile (expires sat_timer) = ⊥
IsMeanwhile _ = Unit {0}

abbrev pub AreMeanwhile : List Event → Type 0
AreMeanwhile [] = Unit {0}
AreMeanwhile (e ∷ es) = IsMeanwhile e × AreMeanwhile es

may_wake-minor :
    (k : Call) (tr : List Call)
    → is_minor k ≡ true
    → may_wake tr ≡ false
    → may_wake (k ∷ tr) ≡ false
may_wake-minor k tr m h = rw h (ground (arith, m))

module _ (c : Config) (env : AppEnv) where
  ble_work_handler-may_wake :
      (w : AppWorld) → may_wake (ble_work_handler c env w).1.trace ≡ may_wake w.trace
  unfolding ble_work_handler ble_adv_stop ble_adv_start
  ble_work_handler-may_wake w = ground arith

  button_pressed_worker-may_wake :
      (w : AppWorld) → may_wake (button_pressed_worker c env w).1.trace ≡ may_wake w.trace
  unfolding button_pressed_worker
  button_pressed_worker-may_wake w = grind (arith, ble_enable-may_wake, ble_disable-may_wake)

  cmd_ble-may_wake :
      (argv : Argv) (w : AppWorld) → may_wake (cmd_ble c env argv w).1.trace ≡ may_wake w.trace
  unfolding cmd_ble
  cmd_ble-may_wake argv w = grind (arith, ble_enable-may_wake, ble_disable-may_wake)

  minor-may_wake :
      (e : Event) (w : AppWorld)
      → IsMinor e
      → may_wake w.trace ≡ false
      → may_wake (step c env e w).1.trace ≡ false
  minor-may_wake e w m h = step-minor (λ tr. may_wake tr ≡ false) may_wake-minor c env e w m h

  step-may_wake :
      (e : Event) (w : AppWorld)
      → IsMeanwhile e
      → may_wake w.trace ≡ false
      → may_wake (step c env e w).1.trace ≡ false
  unfolding adv_provisioning_work_handler ble_init
  step-may_wake booted w m h = absurd m
  step-may_wake (round fuel) w m h = absurd m
  step-may_wake (expires sat_timer) w m h = absurd m
  step-may_wake (works ble_work) w m h = ble_work_handler-may_wake w ∙ h
  step-may_wake (works provisioning_work) w m h = h
  step-may_wake (works button_work) w m h = button_pressed_worker-may_wake w ∙ h
  step-may_wake (typed bluetooth argv) w m h = cmd_ble-may_wake argv w ∙ h
  step-may_wake (mounted size) w m h = minor-may_wake (mounted size) w tt h
  step-may_wake attached w m h = minor-may_wake attached w tt h
  step-may_wake (expires ble_timer) w m h = minor-may_wake (expires ble_timer) w tt h
  step-may_wake (expires led_timer) w m h = minor-may_wake (expires led_timer) w tt h
  step-may_wake (stops t) w m h = minor-may_wake (stops t) w tt h
  step-may_wake connected w m h = minor-may_wake connected w tt h
  step-may_wake disconnected w m h = minor-may_wake disconnected w tt h
  step-may_wake (written req len prepare) w m h = minor-may_wake (written req len prepare) w tt h
  step-may_wake pressed w m h = minor-may_wake pressed w tt h
  step-may_wake bound w m h = minor-may_wake bound w tt h
  step-may_wake (received cmd) w m h = minor-may_wake (received cmd) w tt h
  step-may_wake (typed retransmission argv) w m h =
      minor-may_wake (typed retransmission argv) w tt h
  step-may_wake (typed key argv) w m h = minor-may_wake (typed key argv) w tt h
  step-may_wake (typed payload argv) w m h = minor-may_wake (typed payload argv) w tt h
  step-may_wake (typed status argv) w m h = minor-may_wake (typed status argv) w tt h
  step-may_wake (typed time argv) w m h = minor-may_wake (typed time argv) w tt h
  step-may_wake (typed sensor argv) w m h = minor-may_wake (typed sensor argv) w tt h

  run-may_wake :
      (es : List Event) (w : AppWorld)
      → AreMeanwhile es
      → may_wake w.trace ≡ false
      → may_wake (run c env es w).1.trace ≡ false
  run-may_wake [] w m h = h
  run-may_wake (e ∷ es) w m h = run-may_wake es _ m.1 (step-may_wake e w m.0 h)

  find_pass-may_wake :
      (fuel now_ms t : ℕ) (w : AppWorld)
      → (find_pass env fuel now_ms t w).0 ≡ some (negsuc 0)
      → may_wake (find_pass env fuel now_ms t w).1.trace ≡ may_wake w.trace
  unfolding find_pass
  find_pass-may_wake zero now_ms t w h = refl
  find_pass-may_wake (suc fuel) now_ms t w h =
      ground (arith, find_pass-may_wake fuel now_ms (end_of (reply env t w)) (asked env t w))

  schedule_from_table-may_wake :
      (now_ms : ℕ) (w : AppWorld)
      → (schedule_from_table env now_ms w).0 ≡ some (negsuc 0)
      → may_wake (schedule_from_table env now_ms w).1.trace ≡ may_wake w.trace
  unfolding schedule_from_table
  schedule_from_table-may_wake now_ms w h = ground arith

  sat_schedule-may_wake :
      (fuel : ℕ) (w : AppWorld)
      → (sat_schedule_next_transmission c env fuel w).0 ≡ some (negsuc 0)
      → may_wake (sat_schedule_next_transmission c env fuel w).1.trace ≡ may_wake w.trace
  unfolding sat_schedule_next_transmission
  sat_schedule-may_wake fuel w h =
      let now_ms = env.val w.trace hubble_time_get in
      let w' : AppWorld = record w { trace = hubble_time_get ∷ w.trace } in
      ground
        (arith, find_pass-may_wake fuel now_ms now_ms w', schedule_from_table-may_wake now_ms w')

  -- When the scheduling of a round finds no pass, and neither a timer is running nor the semaphore
  -- given from before, nothing that happens while main waits can wake it: after any events but
  -- main's own and the expiry of the timer, ephemeris messages included, the timer is still not
  -- started and the semaphore not given.
  pub unscheduled_sleeps :
      (fuel : ℕ) (es : List Event) (w : AppWorld)
      → may_wake w.trace ≡ false
      → (sat_schedule_next_transmission c env fuel w).0 ≡ some (negsuc 0)
      → AreMeanwhile es
      → let scheduled = (sat_schedule_next_transmission c env fuel w).1 in
        may_wake (run c env es (ble_enable c env false scheduled).1).1.trace ≡ false
  unscheduled_sleeps fuel es w asleep nothing meanwhile =
      run-may_wake es _ meanwhile
        (ble_enable-may_wake c env false _ ∙ sat_schedule-may_wake fuel w nothing ∙ asleep)
