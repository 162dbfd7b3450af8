-- ===== src/Link/Between.antt =====
-- What main (app/src/main.c) does between two satellite sessions, from the last call of ipc_send in the one
-- to the first in the next: it leaves the semaphore of ipc_send alone.
use hubble_reference_thingy.Common.{ℕ, zero, suc, ◌≡◌, refl, true, ◌∷◌, Bool, arith}
use hubble_reference_thingy.Config.{Config}
use hubble_reference_thingy.App.{AppEnv, AppWorld, hubble_time_get}
use hubble_reference_thingy.Ble.Advertise.{ble_init, ble_adv_start, ble_adv_stop}
use hubble_reference_thingy.Ble.Switch.{
  start_advertising, bring_up, enable_locked, ble_enable, ble_disable,
}
use hubble_reference_thingy.Sat.Schedule.{
  find_pass, schedule_from_table, sat_schedule_next_transmission, end_of,
}
use hubble_reference_thingy.Sat.Schedule.Predicted.{reply, asked}
use hubble_reference_thingy.Main.Network.{sat_disable}
use hubble_reference_thingy.Main.Loop.{end_round}
use hubble_reference_thingy.Main.Serves.{at_session}
use hubble_reference_thingy.Link.Account.{available}

-- the rest of a round, and the next one up to its session
abbrev pub between : Config → AppEnv → ℕ → AppWorld → AppWorld
between c env fuel w =
    let ended = (end_round c env true (sat_disable env w).1).1 in
    at_session c env (sat_schedule_next_transmission c env fuel ended).1

module _ (c : Config) (env : AppEnv) where
  sat_disable-available : (w : AppWorld) → available (sat_disable env w).1.trace ≡ available w.trace
  unfolding sat_disable
  sat_disable-available w = ground arith

  find_pass-available :
      (fuel now_ms t : ℕ) (w : AppWorld)
      → available (find_pass env fuel now_ms t w).1.trace ≡ available w.trace
  unfolding find_pass
  find_pass-available zero now_ms t w = refl
  find_pass-available (suc fuel) now_ms t w =
      ground (arith, find_pass-available fuel now_ms (end_of (reply env t w)) (asked env t w))

  schedule_from_table-available :
      (now_ms : ℕ) (w : AppWorld)
      → available (schedule_from_table env now_ms w).1.trace ≡ available w.trace
  unfolding schedule_from_table
  schedule_from_table-available now_ms w = ground arith

  sat_schedule-available :
      (fuel : ℕ) (w : AppWorld)
      → available (sat_schedule_next_transmission c env fuel w).1.trace ≡ available w.trace
  unfolding sat_schedule_next_transmission
  sat_schedule-available fuel w =
      let now_ms = env.val w.trace hubble_time_get in
      let w' : AppWorld = record w { trace = hubble_time_get ∷ w.trace } in
      ground
        (arith, find_pass-available fuel now_ms now_ms w', schedule_from_table-available now_ms w')

  ble_enable-available :
      (user_requested : Bool) (w : AppWorld)
      → available (ble_enable c env user_requested w).1.trace ≡ available w.trace
  unfolding ble_enable enable_locked bring_up start_advertising ble_init ble_adv_start
  ble_enable-available user_requested w = ground arith

  ble_disable-available :
      (user_requested : Bool) (w : AppWorld)
      → available (ble_disable env user_requested w).1.trace ≡ available w.trace
  unfolding ble_disable ble_adv_stop
  ble_disable-available user_requested w = ground arith

  pub between-available :
      (fuel : ℕ) (w : AppWorld) → available (between c env fuel w).trace ≡ available w.trace
  unfolding end_round
  between-available fuel w = grind (
    arith, sat_disable-available, sat_schedule-available, ble_enable-available,
    ble_disable-available,
  )
