-- ===== src/Sat/Radio.antt =====
-- The satellite functions of app/src/sat_board.c and the radio's mutex: they run under it, and
-- neither take it nor give it back.
use hubble_reference_thingy.Common.{
  ℕ, zero, suc, ◌≡◌, refl, true, false, Option, none, some, List, ◌∷◌, arith, Bool-cases, inl, inr,
}
use hubble_reference_thingy.Common.Int.{ℤ}
use hubble_reference_thingy.Config.{Config}
use hubble_reference_thingy.App.{AppEnv, AppWorld, hubble_time_get}
use hubble_reference_thingy.App.Locks.{radio}
use hubble_reference_thingy.Drivers.Led.{led_blink_start, led_blink_stop}
use hubble_reference_thingy.Sat.Schedule.{
  end_of, find_pass, schedule_from_table, sat_schedule_next_transmission,
}
use hubble_reference_thingy.Sat.Schedule.Predicted.{reply, asked}
use hubble_reference_thingy.Sat.Payload.{payload_get}
use hubble_reference_thingy.Sat.Transmit.{
  send_while_open, send_in_window, send_once, finish_transmit, send_packet, transmit_packet,
  sat_transmit,
}

module _ (env : AppEnv) where
  schedule_from_table-radio :
      (now_ms : ℕ) (w : AppWorld)
      → radio w.trace ≡ some false
      → radio (schedule_from_table env now_ms w).1.trace ≡ some false
  unfolding schedule_from_table
  schedule_from_table-radio now_ms w h = ground arith

  find_pass-radio :
      (fuel now_ms t : ℕ) (w : AppWorld)
      → radio w.trace ≡ some false
      → radio (find_pass env fuel now_ms t w).1.trace ≡ some false
  unfolding find_pass
  find_pass-radio zero now_ms t w h = h
  find_pass-radio (suc fuel) now_ms t w h =
      ground (arith, find_pass-radio fuel now_ms (end_of (reply env t w)) (asked env t w))

module _ (c : Config) (env : AppEnv) where
  pub sat_schedule-radio :
      (fuel : ℕ) (w : AppWorld)
      → radio w.trace ≡ some false
      → radio (sat_schedule_next_transmission c env fuel w).1.trace ≡ some false
  unfolding sat_schedule_next_transmission
  sat_schedule-radio fuel w h =
      let now_ms = env.val w.trace hubble_time_get in
      let w' : AppWorld = record w { trace = hubble_time_get ∷ w.trace } in
      elim (Bool-cases c.pass_prediction) [
        | inl on ↦ rw on (find_pass-radio env fuel now_ms now_ms w' (rw h refl))
        | inr off ↦ rw off (schedule_from_table-radio env now_ms w' (rw h refl))
      ]

  payload_get-radio :
      (w : AppWorld) → radio w.trace ≡ some true → radio (payload_get c env w).1.trace ≡ some true
  unfolding payload_get
  payload_get-radio w h = ground arith

  led_blink_start-radio :
      (w : AppWorld)
      → radio w.trace ≡ some true
      → radio (led_blink_start c env w).1.trace ≡ some true
  unfolding led_blink_start
  led_blink_start-radio w h = ground arith

  finish_transmit-radio :
      (r : Option ℤ) (w : AppWorld)
      → radio w.trace ≡ some true
      → radio (finish_transmit c env r w).1.trace ≡ some true
  unfolding finish_transmit led_blink_stop
  finish_transmit-radio none w h = h
  finish_transmit-radio (some ret) w h = ground arith

  send_while_open-radio :
      (fuel now start : ℕ) (duration : ℤ) (pkt : List ℕ) (w : AppWorld)
      → radio w.trace ≡ some true
      → radio (send_while_open env fuel now start duration pkt w).1.trace ≡ some true
  unfolding send_while_open
  send_while_open-radio zero now start duration pkt w h = h
  send_while_open-radio (suc fuel) now start duration pkt w h =
      grind (arith, send_while_open-radio fuel)

  send_in_window-radio :
      (fuel : ℕ) (pkt : List ℕ) (w : AppWorld)
      → radio w.trace ≡ some true
      → radio (send_in_window env fuel pkt w).1.trace ≡ some true
  unfolding send_in_window
  send_in_window-radio fuel pkt w h = grind (arith, send_while_open-radio)

  send_once-radio :
      (pkt : List ℕ) (w : AppWorld)
      → radio w.trace ≡ some true
      → radio (send_once env pkt w).1.trace ≡ some true
  unfolding send_once
  send_once-radio pkt w h = ground arith

  pub sat_transmit-radio :
      (fuel : ℕ) (w : AppWorld)
      → radio w.trace ≡ some true
      → radio (sat_transmit c env fuel w).1.trace ≡ some true
  unfolding sat_transmit transmit_packet send_packet
  sat_transmit-radio fuel w h = grind (
    arith, payload_get-radio, led_blink_start-radio, finish_transmit-radio, send_in_window-radio,
    send_once-radio,
  )
