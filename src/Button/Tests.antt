-- ===== src/Button/Tests.antt =====
-- The theorem on the button of app/src/button.c at a concrete input.
use hubble_reference_thingy.Common.{◌≡◌, refl, true, false}
use hubble_reference_thingy.App.Examples.{table_config, calm, started}
use hubble_reference_thingy.Ble.Policy.{OthersKeepChoice, bt_on}
use hubble_reference_thingy.Button.{button_pressed_worker}
use hubble_reference_thingy.Button.Toggle.{button_pressed_worker_toggles}

calm-OthersKeepChoice : OthersKeepChoice calm
calm-OthersKeepChoice = record { keep = λ tr k a. refl }

-- Bluetooth is not ready, so the press switches it on
button_pressed_worker_toggles_example :
    (bt_on (button_pressed_worker table_config calm started).1.trace ≡ true)
    × ((button_pressed_worker table_config calm started).1.state.ble.off_by_user ≡ false)
button_pressed_worker_toggles_example =
    button_pressed_worker_toggles table_config calm started calm-OthersKeepChoice
