-- ===== src/Ble/Radio.antt =====
-- The functions of app/src/ble.c that switch the radio take its mutex, use the radio under it only,
-- and give it back on every path.
use hubble_reference_thingy.Common.{◌≡◌, Bool, true, false, some, arith}
use hubble_reference_thingy.Config.{Config}
use hubble_reference_thingy.App.{AppEnv, AppWorld}
use hubble_reference_thingy.App.Locks.{radio}
use hubble_reference_thingy.Ble.Advertise.{ble_init, ble_adv_start, ble_adv_stop}
use hubble_reference_thingy.Ble.Switch.{
  start_advertising, bring_up, enable_locked, ble_enable, ble_disable,
}

module _ (c : Config) (env : AppEnv) where
  ble_adv_start-radio :
      (w : AppWorld) → radio w.trace ≡ some true → radio (ble_adv_start c env w).1.trace ≡ some true
  unfolding ble_adv_start
  ble_adv_start-radio w h = ground arith

  ble_init-radio :
      (w : AppWorld) → radio w.trace ≡ some true → radio (ble_init env w).1.trace ≡ some true
  unfolding ble_init
  ble_init-radio w h = ground arith

  start_advertising-radio :
      (w : AppWorld)
      → radio w.trace ≡ some true
      → radio (start_advertising c env w).1.trace ≡ some true
  unfolding start_advertising
  start_advertising-radio w h = grind (arith, ble_adv_start-radio, ble_init-radio)

  bring_up-radio :
      (w : AppWorld) → radio w.trace ≡ some true → radio (bring_up c env w).1.trace ≡ some true
  unfolding bring_up
  bring_up-radio w h = grind (arith, start_advertising-radio)

  enable_locked-radio :
      (u : Bool) (w : AppWorld)
      → radio w.trace ≡ some true
      → radio (enable_locked c env u w).1.trace ≡ some true
  unfolding enable_locked
  enable_locked-radio u w h = grind (arith, bring_up-radio)

  -- Turning Bluetooth on leaves the radio's mutex free and uses the radio only while it holds it, on
  -- every path.
  pub ble_enable-radio :
      (user_requested : Bool) (w : AppWorld)
      → radio w.trace ≡ some false
      → radio (ble_enable c env user_requested w).1.trace ≡ some false
  unfolding ble_enable
  ble_enable-radio u w h = grind (arith, enable_locked-radio)

-- Turning Bluetooth off leaves the mutex free, and uses the radio only while it holds it.
pub ble_disable-radio :
    (env : AppEnv) (user_requested : Bool) (w : AppWorld)
    → radio w.trace ≡ some false
    → radio (ble_disable env user_requested w).1.trace ≡ some false
unfolding ble_disable ble_adv_stop
ble_disable-radio env u w h = ground arith
