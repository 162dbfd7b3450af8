-- ===== src/Drivers/Led.antt =====
-- The blinking LED: app/src/led.c, and the inline stubs of app/src/led.h for a build without it.
use hubble_reference_thingy.Common.{ℕ, if◌then◌else◌}
use hubble_reference_thingy.Common.Int.{ℤ, pos, neg, is_zero, is_neg}
use hubble_reference_thingy.Common.Effects.{pure, ◌>>=◌, ◌>>◌, call, emit}
use hubble_reference_thingy.Config.{Config}
use hubble_reference_thingy.App.{
  AppEnv, AppM, led_gpio, led_timer, output_active, output_inactive, device_is_ready,
  gpio_pin_configure, gpio_pin_toggle, k_timer_start, k_timer_stop,
}

-- LED_INTERVAL_S
abbrev led_interval_s : ℕ
led_interval_s = 1

unfoldable pub led_blink_cb : AppM (Unit {0})
led_blink_cb = emit (gpio_pin_toggle led_gpio)

unfoldable pub led_stop_cb : AppM (Unit {0})
led_stop_cb = emit (gpio_pin_configure led_gpio output_inactive)

module _ (c : Config) (env : AppEnv) where
  unfoldable pub led_blink_start : AppM ℤ
  led_blink_start =
      if c.blink_led
      then (do
        ready ← call env (device_is_ready led_gpio)
        (if is_zero ready then pure (neg c.eagain) else do
          ret ← call env (gpio_pin_configure led_gpio output_active)
          (if is_neg ret
              then pure ret
              else do emit (k_timer_start led_timer led_interval_s led_interval_s); pure (pos 0))))
      else pure (pos 0)

  unfoldable pub led_blink_stop : AppM (Unit {0})
  led_blink_stop = if c.blink_led then emit (k_timer_stop led_timer) else pure tt
