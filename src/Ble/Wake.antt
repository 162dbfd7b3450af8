-- ===== src/Ble/Wake.antt =====
-- ble_enable and ble_disable of app/src/ble.c do not touch what wakes main of app/src/main.c.
use hubble_reference_thingy.Common.{◌≡◌, Bool, arith}
use hubble_reference_thingy.Config.{Config}
use hubble_reference_thingy.App.{AppEnv, AppWorld}
use hubble_reference_thingy.App.Wake.{may_wake}
use hubble_reference_thingy.Ble.Advertise.{ble_init, ble_adv_start, ble_adv_stop}
use hubble_reference_thingy.Ble.Switch.{
  start_advertising, bring_up, enable_locked, ble_enable, ble_disable,
}

module _ (c : Config) (env : AppEnv) where
  pub ble_enable-may_wake :
      (user_requested : Bool) (w : AppWorld)
      → may_wake (ble_enable c env user_requested w).1.trace ≡ may_wake w.trace
  unfolding ble_enable enable_locked bring_up start_advertising ble_init ble_adv_start
  ble_enable-may_wake user_requested w = ground arith

  pub ble_disable-may_wake :
      (user_requested : Bool) (w : AppWorld)
      → may_wake (ble_disable env user_requested w).1.trace ≡ may_wake w.trace
  unfolding ble_disable ble_adv_stop
  ble_disable-may_wake user_requested w = ground arith
