-- ===== src/Main/Waits.antt =====
-- The waits of main (app/src/main.c) that have no timeout: which of them never comes back, and that none
-- does in a round that has found a pass.
use hubble_reference_thingy.Common.{
  ℕ, zero, suc, ◌≡◌, refl, ◌∙◌, Bool, true, false, not, ◌||◌, Option, none, some, List, [], ◌∷◌,
  arith,
}
use hubble_reference_thingy.Common.Int.{ℤ, pos, is_zero}
use hubble_reference_thingy.Common.Effects.{block}
use hubble_reference_thingy.Config.{Config}
use hubble_reference_thingy.App.{
  AppEnv, AppWorld, Call, radio_mutex, k_mutex_lock, hubble_time_get, k_sem_take, forever,
  timer_sem, bound_sem,
}
use hubble_reference_thingy.App.Wake.{may_wake}
use hubble_reference_thingy.Drivers.Led.{led_blink_start, led_blink_stop}
use hubble_reference_thingy.Ble.Advertise.{ble_init, ble_adv_start, ble_adv_stop}
use hubble_reference_thingy.Ble.Switch.{
  start_advertising, bring_up, enable_locked, ble_enable, ble_disable,
}
use hubble_reference_thingy.Ble.Wake.{ble_enable-may_wake}
use hubble_reference_thingy.Sat.Schedule.{
  find_pass, schedule_from_table, sat_schedule_next_transmission, end_of,
}
use hubble_reference_thingy.Sat.Schedule.Predicted.{reply, asked}
use hubble_reference_thingy.Sat.Payload.{payload_get}
use hubble_reference_thingy.Sat.Transmit.{
  send_while_open, send_in_window, send_once, finish_transmit, send_packet, transmit_packet,
  sat_transmit,
}
use hubble_reference_thingy.Ipc.{ipc_send}
use hubble_reference_thingy.Main.Network.{sat_enable, sat_disable}
use hubble_reference_thingy.Main.Loop.{satellite_session, end_round, round_after, main_round}

-- A k_sem_take or a k_mutex_lock with K_FOREVER returns 0 or never: any other result stands for never.
abbrev never_returns : AppEnv → List Call → Call → Bool
never_returns env tr (k_sem_take s forever) = not (is_zero (env.ret tr (k_sem_take s forever)))
never_returns env tr (k_mutex_lock m) = not (is_zero (env.ret tr (k_mutex_lock m)))
never_returns env tr _ = false

-- Whether some wait of a trace never returns. The functions of the model run on past it, the program
-- does not.
abbrev pub hangs : AppEnv → List Call → Bool
hangs env [] = false
hangs env (k ∷ tr) = never_returns env tr k || hangs env tr

-- The wait for `timer_sem` returns if the timer was started, or the semaphore given, since the last one;
-- whoever holds `radio_mutex` gives it back; and the network core binds the endpoint whenever main waits for that.
pub record WaitsReturn (env : AppEnv) : Type 0 where
  pub wakes :
      (tr : List Call)
      → may_wake tr ≡ true
      → is_zero (env.ret tr (k_sem_take timer_sem forever)) ≡ true
  pub locked : (tr : List Call) → is_zero (env.ret tr (k_mutex_lock radio_mutex)) ≡ true
  pub bound : (tr : List Call) → is_zero (env.ret tr (k_sem_take bound_sem forever)) ≡ true

find_pass-wakes :
    (env : AppEnv) (fuel now_ms t : ℕ) (w : AppWorld)
    → (find_pass env fuel now_ms t w).0 ≡ some (pos 0)
    → may_wake (find_pass env fuel now_ms t w).1.trace ≡ true
unfolding find_pass
find_pass-wakes env zero now_ms t w h = absurd cc
find_pass-wakes env (suc fuel) now_ms t w h =
    ground (arith, find_pass-wakes env fuel now_ms (end_of (reply env t w)) (asked env t w))

schedule_from_table-wakes :
    (env : AppEnv) (now_ms : ℕ) (w : AppWorld)
    → (schedule_from_table env now_ms w).0 ≡ some (pos 0)
    → may_wake (schedule_from_table env now_ms w).1.trace ≡ true
unfolding schedule_from_table
schedule_from_table-wakes env now_ms w h = ground arith

-- A search that has found a pass has started the timer.
sat_schedule-wakes :
    (c : Config) (env : AppEnv) (fuel : ℕ) (w : AppWorld)
    → (sat_schedule_next_transmission c env fuel w).0 ≡ some (pos 0)
    → may_wake (sat_schedule_next_transmission c env fuel w).1.trace ≡ true
unfolding sat_schedule_next_transmission
sat_schedule-wakes c env fuel w h =
    let now_ms = env.val w.trace hubble_time_get in
    let w' : AppWorld = record w { trace = hubble_time_get ∷ w.trace } in
    ground
      (arith, find_pass-wakes env fuel now_ms now_ms w', schedule_from_table-wakes env now_ms w')

module _ (env : AppEnv) where
  find_pass-hangs :
      (fuel now_ms t : ℕ) (w : AppWorld)
      → hangs env (find_pass env fuel now_ms t w).1.trace ≡ hangs env w.trace
  unfolding find_pass
  find_pass-hangs zero now_ms t w = refl
  find_pass-hangs (suc fuel) now_ms t w =
      ground (arith, find_pass-hangs fuel now_ms (end_of (reply env t w)) (asked env t w))

  schedule_from_table-hangs :
      (now_ms : ℕ) (w : AppWorld)
      → hangs env (schedule_from_table env now_ms w).1.trace ≡ hangs env w.trace
  unfolding schedule_from_table
  schedule_from_table-hangs now_ms w = ground arith

  send_while_open-hangs :
      (fuel now start : ℕ) (duration : ℤ) (pkt : List ℕ) (w : AppWorld)
      → hangs env (send_while_open env fuel now start duration pkt w).1.trace ≡ hangs env w.trace
  unfolding send_while_open
  send_while_open-hangs zero now start duration pkt w = refl
  send_while_open-hangs (suc fuel) now start duration pkt w =
      grind (arith, send_while_open-hangs fuel)

  sat_disable-hangs : (w : AppWorld) → hangs env (sat_disable env w).1.trace ≡ hangs env w.trace
  unfolding sat_disable
  sat_disable-hangs w = ground arith

module _ (c : Config) (env : AppEnv) where
  sat_schedule-hangs :
      (fuel : ℕ) (w : AppWorld)
      → hangs env (sat_schedule_next_transmission c env fuel w).1.trace ≡ hangs env w.trace
  unfolding sat_schedule_next_transmission
  sat_schedule-hangs fuel w =
      let now_ms = env.val w.trace hubble_time_get in
      let w' : AppWorld = record w { trace = hubble_time_get ∷ w.trace } in
      ground
        (arith, find_pass-hangs env fuel now_ms now_ms w', schedule_from_table-hangs env now_ms w')

  ble_enable-hangs :
      WaitsReturn env
      → (user_requested : Bool) (w : AppWorld)
      → hangs env (ble_enable c env user_requested w).1.trace ≡ hangs env w.trace
  unfolding ble_enable enable_locked bring_up start_advertising ble_init ble_adv_start
  ble_enable-hangs b user_requested w = ground (arith, b.locked w.trace)

  ble_disable-hangs :
      WaitsReturn env
      → (user_requested : Bool) (w : AppWorld)
      → hangs env (ble_disable env user_requested w).1.trace ≡ hangs env w.trace
  unfolding ble_disable ble_adv_stop
  ble_disable-hangs b user_requested w = ground (arith, b.locked w.trace)

  payload_get-hangs : (w : AppWorld) → hangs env (payload_get c env w).1.trace ≡ hangs env w.trace
  unfolding payload_get
  payload_get-hangs w = ground arith

  led_blink_start-hangs :
      (w : AppWorld) → hangs env (led_blink_start c env w).1.trace ≡ hangs env w.trace
  unfolding led_blink_start
  led_blink_start-hangs w = ground arith

  finish_transmit-hangs :
      (r : Option ℤ) (w : AppWorld)
      → hangs env (finish_transmit c env r w).1.trace ≡ hangs env w.trace
  unfolding finish_transmit led_blink_stop
  finish_transmit-hangs none w = refl
  finish_transmit-hangs (some ret) w = ground arith

  send_packet-hangs :
      (fuel : ℕ) (pkt : List ℕ) (w : AppWorld)
      → hangs env (send_packet c env fuel pkt w).1.trace ≡ hangs env w.trace
  unfolding send_packet send_once send_in_window
  send_packet-hangs fuel pkt w = grind (arith, send_while_open-hangs)

  sat_transmit-hangs :
      (fuel : ℕ) (w : AppWorld) → hangs env (sat_transmit c env fuel w).1.trace ≡ hangs env w.trace
  unfolding sat_transmit transmit_packet
  sat_transmit-hangs fuel w =
      grind
        (arith, payload_get-hangs, led_blink_start-hangs, send_packet-hangs, finish_transmit-hangs)

  module _ (b : WaitsReturn env) where
    sat_enable-hangs : (w : AppWorld) → hangs env (sat_enable c env w).1.trace ≡ hangs env w.trace
    unfolding sat_enable ipc_send
    sat_enable-hangs w = grind (arith, b.bound)

    satellite_session-hangs :
        (fuel : ℕ) (w : AppWorld)
        → hangs env (satellite_session c env fuel w).1.trace ≡ hangs env w.trace
    unfolding satellite_session
    satellite_session-hangs fuel w =
        grind (arith, sat_enable-hangs, sat_transmit-hangs, sat_disable-hangs)

    end_round-hangs :
        (complete : Bool) (w : AppWorld)
        → hangs env (end_round c env complete w).1.trace ≡ hangs env w.trace
    unfolding end_round
    end_round-hangs false w = refl
    end_round-hangs true w = refl

    round_after-hangs :
        (fuel : ℕ) (ret : ℤ) (w : AppWorld)
        → may_wake w.trace ≡ true
        → hangs env (round_after c env fuel (some ret) w).1.trace ≡ hangs env w.trace
    unfolding round_after
    round_after-hangs fuel ret w armed =
        let on = (ble_enable c env false w).1 in
        let woken = (block env (k_sem_take timer_sem forever) on).1 in
        let idle = (ble_disable env false woken).1 in
        let locked = (block env (k_mutex_lock radio_mutex) idle).1 in
        let back = b.wakes on.trace (ble_enable-may_wake c env false w ∙ armed) in
        let session = satellite_session c env fuel locked in
        ground (
          arith,
          back,
          ble_enable-hangs b false w,
          b.locked idle.trace,
          ble_disable-hangs b false woken,
          satellite_session-hangs fuel locked,
          end_round-hangs session.0 session.1,
        )

    -- A round whose search has found a pass never waits for ever.
    pub main_round-hangs :
        (fuel : ℕ) (w : AppWorld)
        → (sat_schedule_next_transmission c env fuel w).0 ≡ some (pos 0)
        → hangs env (main_round c env fuel w).1.trace ≡ hangs env w.trace
    unfolding main_round
    main_round-hangs fuel w found =
        let scheduled = (sat_schedule_next_transmission c env fuel w).1 in
        rw found (
          round_after-hangs fuel (pos 0) scheduled (sat_schedule-wakes c env fuel w found)
          ∙ sat_schedule-hangs fuel w)
