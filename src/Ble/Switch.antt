-- ===== src/Ble/Switch.antt =====
-- Turning Bluetooth on and off: ble_enable and ble_disable of app/src/ble.c, under the radio's mutex.
use hubble_reference_thingy.Common.{Bool, true, false, not, ◌&&◌, ◌==◌, if◌then◌else◌}
use hubble_reference_thingy.Common.Int.{neg, is_zero, ◌==ℤ◌}
use hubble_reference_thingy.Common.Effects.{pure, ◌>>=◌, ◌>>◌, gets, call, block, emit}
use hubble_reference_thingy.Config.{Config}
use hubble_reference_thingy.App.{
  AppEnv, AppM, radio_mutex, k_mutex_lock, k_mutex_unlock, bt_enable, bt_disable, modify_ble,
}
use hubble_reference_thingy.Ble.Advertise.{ble_init, ble_adv_start, ble_adv_stop}

module _ (c : Config) (env : AppEnv) where
  -- time sync first, or the beacon
  unfoldable pub start_advertising : AppM (Unit {0})
  start_advertising = do
    utc_time ← gets (λ a. a.utc_time)
    (if utc_time == 0 then ble_init env else ble_adv_start c env)
    pure tt

  -- a result other than 0 and -EALREADY leaves it at that
  unfoldable pub bring_up : AppM (Unit {0})
  bring_up = do
    err ← call env bt_enable
    (if not (is_zero err) && not (err ==ℤ neg c.ealready) then pure tt else start_advertising)

  -- what ble_enable does between taking the mutex and the label `end`
  unfoldable pub enable_locked : Bool → AppM (Unit {0})
  enable_locked user_requested = do
    off ← gets (λ a. a.ble.off_by_user)
    (if not user_requested && off then pure tt else do
      (if user_requested then modify_ble (λ b. record b { off_by_user = false }) else pure tt)
      bring_up)

  unfoldable pub ble_enable : Bool → AppM (Unit {0})
  ble_enable user_requested = do
    block env (k_mutex_lock radio_mutex)
    enable_locked user_requested
    emit (k_mutex_unlock radio_mutex)

unfoldable pub ble_disable : AppEnv → Bool → AppM (Unit {0})
ble_disable env user_requested = do
  block env (k_mutex_lock radio_mutex)
  (if user_requested then modify_ble (λ b. record b { off_by_user = true }) else pure tt)
  ble_adv_stop
  emit bt_disable
  emit (k_mutex_unlock radio_mutex)
