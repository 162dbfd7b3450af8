-- ===== src/Button/Toggle.antt =====
-- A press of the button of app/src/button.c turns Bluetooth from on to off and from off to on.
use hubble_reference_thingy.Common.{◌≡◌, not, [], ◌∷◌, Bool-cases, inl, inr}
use hubble_reference_thingy.Common.Int.{is_zero}
use hubble_reference_thingy.Config.{Config}
use hubble_reference_thingy.App.{AppEnv, AppWorld, bt_is_ready}
use hubble_reference_thingy.Ble.Policy.{bt_on, user_off_persists, user_on_enables, OthersKeepChoice}
use hubble_reference_thingy.Button.{button_pressed_worker}

-- A press asks, in the user's name, for what Bluetooth is not. Afterwards it was Bluetooth's start
-- that was asked for last, if it was not ready, or its stop, if it was; and the user's choice is
-- kept for main's own requests. The threads that run while the request waits for the mutex are
-- taken to leave that choice alone.
pub button_pressed_worker_toggles :
    (c : Config) (env : AppEnv) (w : AppWorld)
    → OthersKeepChoice env
    → let ready = not (is_zero (env.ret w.trace bt_is_ready)) in
      let w' = (button_pressed_worker c env w).1 in
      (bt_on w'.trace ≡ not ready) × (w'.state.ble.off_by_user ≡ ready)
unfolding button_pressed_worker
button_pressed_worker_toggles c env w k =
    let w₁ : AppWorld = record w { trace = bt_is_ready ∷ w.trace } in
    let on = (user_on_enables c env w₁ k).0 in
    let off = user_off_persists c env k [] w₁ tt in
    elim (Bool-cases (is_zero (env.ret w.trace bt_is_ready))) [
      | inl idle ↦ rw idle (on.1, on.0)
      | inr ready ↦ rw ready (off.1, off.0)
    ]
