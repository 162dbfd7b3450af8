-- ===== src/Button.antt =====
-- The push button that switches Bluetooth: app/src/button.c.
pub mod Toggle
pub mod Tests
use hubble_reference_thingy.Common.{ℕ, true, not, if◌then◌else◌}
use hubble_reference_thingy.Common.Int.{ℤ, pos, negsuc, is_zero}
use hubble_reference_thingy.Common.Effects.{pure, ◌>>=◌, ◌>>◌, call, emit}
use hubble_reference_thingy.Config.{Config}
use hubble_reference_thingy.App.{
  AppEnv, AppM, button_gpio, button_work, input, device_is_ready, gpio_pin_configure,
  gpio_interrupt_to_active, gpio_init_callback, gpio_add_callback, k_work_init, k_work_submit,
  bt_is_ready,
}
use hubble_reference_thingy.Ble.Switch.{ble_enable, ble_disable}

-- _button_pressed_worker
unfoldable pub button_pressed_worker : Config → AppEnv → AppM (Unit {0})
button_pressed_worker c env = do
  ready ← call env bt_is_ready
  (if is_zero ready then ble_enable c env true else ble_disable env true)

-- _button_pressed, in the interrupt
unfoldable pub button_pressed : AppM (Unit {0})
button_pressed = emit (k_work_submit button_work)

-- _button_init
unfoldable pub button_init : AppEnv → AppM ℤ
button_init env = do
  ready ← call env (device_is_ready button_gpio)
  (if is_zero ready then pure (negsuc 0) else do
    ret ← call env (gpio_pin_configure button_gpio input)
    (if not (is_zero ret) then pure ret else do
      ret ← call env (gpio_interrupt_to_active button_gpio)
      (if not (is_zero ret) then pure ret else do
        emit (gpio_init_callback button_gpio)
        emit (gpio_add_callback button_gpio)
        emit (k_work_init button_work)
        pure ret)))
