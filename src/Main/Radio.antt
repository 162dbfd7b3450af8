-- ===== src/Main/Radio.antt =====
-- The rounds of main, the button and the shell command, and the radio's mutex.
use hubble_reference_thingy.Common.{ℕ, ◌≡◌, refl, Bool, true, false, Option, none, some, arith}
use mathlib.Core.Bool.{false≢true}
use hubble_reference_thingy.Common.Int.{ℤ}
use hubble_reference_thingy.Config.{Config}
use hubble_reference_thingy.App.{AppEnv, AppWorld}
use hubble_reference_thingy.App.Locks.{radio}
use hubble_reference_thingy.Ble.Radio.{ble_enable-radio, ble_disable-radio}
use hubble_reference_thingy.Sat.Radio.{sat_schedule-radio, sat_transmit-radio}
use hubble_reference_thingy.Main.Network.{sat_enable, sat_disable}
use hubble_reference_thingy.Main.Loop.{satellite_session, end_round, round_after, main_round}
use hubble_reference_thingy.Button.{button_pressed_worker}

module _ (c : Config) (env : AppEnv) where
  sat_enable-radio :
      (w : AppWorld) → radio w.trace ≡ some true → radio (sat_enable c env w).1.trace ≡ some true
  unfolding sat_enable
  sat_enable-radio w h = ground arith

  sat_disable-radio :
      (w : AppWorld) → radio w.trace ≡ some true → radio (sat_disable env w).1.trace ≡ some true
  unfolding sat_disable
  sat_disable-radio w h = ground arith

  satellite_session-radio :
      (fuel : ℕ) (w : AppWorld)
      → radio w.trace ≡ some true
      → radio (satellite_session c env fuel w).1.trace ≡ some true
  unfolding satellite_session
  satellite_session-radio fuel w h =
      grind (arith, sat_enable-radio, sat_disable-radio, sat_transmit-radio)

  end_round-radio :
      (complete : Bool) (w : AppWorld)
      → radio w.trace ≡ some true
      → (end_round c env complete w).0 ≡ true
      → radio (end_round c env complete w).1.trace ≡ some false
  unfolding end_round
  end_round-radio false w h complete = absurd (false≢true complete)
  end_round-radio true w h complete = rw h refl

  round_after-radio :
      (fuel : ℕ) (scheduled : Option ℤ) (w : AppWorld)
      → radio w.trace ≡ some false
      → (round_after c env fuel scheduled w).0 ≡ true
      → radio (round_after c env fuel scheduled w).1.trace ≡ some false
  unfolding round_after
  round_after-radio fuel none w h complete = absurd (false≢true complete)
  round_after-radio fuel (some r) w h complete =
      grind (arith, end_round-radio, ble_enable-radio, ble_disable-radio, satellite_session-radio)

  -- A complete round of main's loop that starts with the radio's mutex free keeps to it: it uses
  -- Bluetooth and the network core only while it holds it, never locks it twice, and ends with the
  -- mutex free, also when the satellite stack cannot be enabled or a transmission fails.
  pub main_round-radio :
      (fuel : ℕ) (w : AppWorld)
      → radio w.trace ≡ some false
      → (main_round c env fuel w).0 ≡ true
      → radio (main_round c env fuel w).1.trace ≡ some false
  unfolding main_round
  main_round-radio fuel w h complete =
      round_after-radio fuel _ _ (sat_schedule-radio c env fuel w h) complete

  -- A press of the button
  pub button_pressed_worker-radio :
      (w : AppWorld)
      → radio w.trace ≡ some false
      → radio (button_pressed_worker c env w).1.trace ≡ some false
  unfolding button_pressed_worker
  button_pressed_worker-radio w h = grind (arith, ble_enable-radio, ble_disable-radio)
