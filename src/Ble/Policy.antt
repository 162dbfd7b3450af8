-- ===== src/Ble/Policy.antt =====
-- Who decides whether Bluetooth runs, in app/src/ble.c: the user's last word holds through the rounds
-- of main, which switch Bluetooth off and on again.
use hubble_reference_thingy.Common.{
  ◌≡◌, refl, ◌∙◌, Bool, true, false, not, ◌&&◌, List, [], ◌∷◌, arith, ◌==◌, Bool-cases, inl, inr,
}
use hubble_reference_thingy.Common.Int.{is_zero, neg, ◌==ℤ◌}
use hubble_reference_thingy.Common.Effects.{block}
use hubble_reference_thingy.Config.{Config}
use hubble_reference_thingy.App.{
  AppEnv, AppWorld, AppM, App, Call, radio_mutex, k_mutex_lock, bt_enable, bt_disable,
}
use hubble_reference_thingy.Ble.Advertise.{ble_init, ble_adv_start, ble_adv_stop}
use hubble_reference_thingy.Ble.Switch.{
  start_advertising, bring_up, enable_locked, ble_enable, ble_disable,
}

-- what is asked for: by main (`auto`), or by the button or the shell (`user`)
pub data Request : Type 0 where
  auto_on auto_off user_on user_off : Request

module _ (c : Config) (env : AppEnv) where
  abbrev serve : Request → AppM (Unit {0})
  serve auto_on = ble_enable c env false
  serve auto_off = ble_disable env false
  serve user_on = ble_enable c env true
  serve user_off = ble_disable env true

  abbrev pub serve_all : List Request → AppWorld → AppWorld
  serve_all [] w = w
  serve_all (r ∷ rs) w = serve_all rs (serve r w).1

-- no request of the user's to enable
abbrev pub NoUserOn : List Request → Type 0
NoUserOn [] = Unit {0}
NoUserOn (user_on ∷ rs) = ⊥
NoUserOn (_ ∷ rs) = NoUserOn rs

-- Whether Bluetooth was switched on last.
abbrev bt_step : Call → Bool → Bool
bt_step bt_enable on = true
bt_step bt_disable on = false
bt_step _ on = on

abbrev pub bt_on : List Call → Bool
bt_on [] = false
bt_on (k ∷ tr) = bt_step k (bt_on tr)

-- The requests are all that touch `ble_off_by_user`: the threads that run while one waits for the
-- mutex leave it alone.
pub record OthersKeepChoice (env : AppEnv) : Type 0 where
  pub keep :
      (tr : List Call) (k : Call) (a : App)
      → (env.others tr k a).ble.off_by_user ≡ a.ble.off_by_user

abbrev pub IsSwitchedOff : AppWorld → Type 0
IsSwitchedOff w = (w.state.ble.off_by_user ≡ true) × (bt_on w.trace ≡ false)

pub user_off-IsSwitchedOff :
    (env : AppEnv) (w : AppWorld) → IsSwitchedOff (ble_disable env true w).1
unfolding ble_disable ble_adv_stop
user_off-IsSwitchedOff env w = ground arith

auto_off-allowed :
    {env : AppEnv} (w : AppWorld)
    → OthersKeepChoice env
    → w.state.ble.off_by_user ≡ false
    → (ble_disable env false w).1.state.ble.off_by_user ≡ false
unfolding ble_disable ble_adv_stop
auto_off-allowed {env} w k h = ground (arith, k.keep w.trace (k_mutex_lock radio_mutex) w.state)

module _ (c : Config) (env : AppEnv) (k : OthersKeepChoice env) where
  auto_on-IsSwitchedOff :
      (w : AppWorld) → IsSwitchedOff w → IsSwitchedOff (ble_enable c env false w).1
  unfolding ble_enable enable_locked
  auto_on-IsSwitchedOff w h = ground (arith, k.keep w.trace (k_mutex_lock radio_mutex) w.state)

  auto_off-IsSwitchedOff :
      (w : AppWorld) → IsSwitchedOff w → IsSwitchedOff (ble_disable env false w).1
  unfolding ble_disable ble_adv_stop
  auto_off-IsSwitchedOff w h = ground (arith, k.keep w.trace (k_mutex_lock radio_mutex) w.state)

  serve_all-IsSwitchedOff :
      (rs : List Request) (w : AppWorld)
      → NoUserOn rs
      → IsSwitchedOff w
      → IsSwitchedOff (serve_all c env rs w)
  serve_all-IsSwitchedOff [] w n h = h
  serve_all-IsSwitchedOff (auto_on ∷ rs) w n h =
      serve_all-IsSwitchedOff rs _ n (auto_on-IsSwitchedOff w h)
  serve_all-IsSwitchedOff (auto_off ∷ rs) w n h =
      serve_all-IsSwitchedOff rs _ n (auto_off-IsSwitchedOff w h)
  serve_all-IsSwitchedOff (user_off ∷ rs) w n h =
      serve_all-IsSwitchedOff rs _ n (user_off-IsSwitchedOff env w)
  serve_all-IsSwitchedOff (user_on ∷ rs) w n h = absurd n

  -- Once the user has switched Bluetooth off it stays off, whatever main asks for and however often
  -- the user asks for it again, until the user switches it on. The threads that run while a request
  -- waits for the mutex are taken to leave the user's choice alone.
  pub user_off_persists :
      (rs : List Request) (w : AppWorld)
      → NoUserOn rs
      → IsSwitchedOff (serve_all c env (user_off ∷ rs) w)
  user_off_persists rs w n = serve_all-IsSwitchedOff rs _ n (user_off-IsSwitchedOff env w)

-- Bluetooth was switched on last, and the user has not switched it off.
abbrev pub IsSwitchedOn : AppWorld → Type 0
IsSwitchedOn w = (w.state.ble.off_by_user ≡ false) × (bt_on w.trace ≡ true)

module _ (c : Config) (env : AppEnv) where
  ble_init-IsSwitchedOn : (w : AppWorld) → IsSwitchedOn w → IsSwitchedOn (ble_init env w).1
  unfolding ble_init
  ble_init-IsSwitchedOn w h = ground arith

  ble_adv_start-IsSwitchedOn :
      (w : AppWorld) → IsSwitchedOn w → IsSwitchedOn (ble_adv_start c env w).1
  unfolding ble_adv_start
  ble_adv_start-IsSwitchedOn w h = ground arith

  start_advertising-IsSwitchedOn :
      (w : AppWorld) → IsSwitchedOn w → IsSwitchedOn (start_advertising c env w).1
  unfolding start_advertising
  start_advertising-IsSwitchedOn w h = elim (Bool-cases (w.state.utc_time == 0)) [
    | inl unsynced ↦ rw unsynced (ble_init-IsSwitchedOn w h)
    | inr synced ↦ rw synced (ble_adv_start-IsSwitchedOn w h)
  ]

  bring_up-IsSwitchedOn :
      (w : AppWorld) → w.state.ble.off_by_user ≡ false → IsSwitchedOn (bring_up c env w).1
  unfolding bring_up
  bring_up-IsSwitchedOn w h =
      let w' : AppWorld = record w { trace = bt_enable ∷ w.trace } in
      let err = env.ret w.trace bt_enable in
      elim (Bool-cases (not (is_zero err) && not (err ==ℤ neg c.ealready))) [
        | inl failed ↦ rw failed (h, refl)
        | inr fine ↦ rw fine (start_advertising-IsSwitchedOn w' (h, refl))
      ]

  pub user_on-IsSwitchedOn : (w : AppWorld) → IsSwitchedOn (ble_enable c env true w).1
  unfolding ble_enable enable_locked
  user_on-IsSwitchedOn w = bring_up-IsSwitchedOn _ refl

  enable_locked-allowed :
      (w : AppWorld)
      → w.state.ble.off_by_user ≡ false
      → enable_locked c env false w ≡ bring_up c env w
  unfolding enable_locked
  enable_locked-allowed w h = rw h refl

  enable_locked-IsSwitchedOn :
      (w : AppWorld)
      → w.state.ble.off_by_user ≡ false
      → IsSwitchedOn (enable_locked c env false w).1
  enable_locked-IsSwitchedOn w h = rw (enable_locked-allowed w h) (bring_up-IsSwitchedOn w h)

  auto_on-IsSwitchedOn :
      (w : AppWorld)
      → OthersKeepChoice env
      → w.state.ble.off_by_user ≡ false
      → IsSwitchedOn (ble_enable c env false w).1
  unfolding ble_enable
  auto_on-IsSwitchedOn w k h =
      enable_locked-IsSwitchedOn (block env (k_mutex_lock radio_mutex) w).1
        (k.keep w.trace (k_mutex_lock radio_mutex) w.state ∙ h)

  -- The user's request to enable always tries to switch Bluetooth on, and takes back an earlier
  -- request to disable: main's next request, after it has switched Bluetooth off for a satellite
  -- session, switches it on again. The threads that run while a request waits for the mutex are
  -- taken to leave the user's choice alone.
  pub user_on_enables :
      (w : AppWorld)
      → OthersKeepChoice env
      → IsSwitchedOn (ble_enable c env true w).1
        × IsSwitchedOn (serve_all c env (user_on ∷ auto_off ∷ auto_on ∷ []) w)
  user_on_enables w k = (
    user_on-IsSwitchedOn w,
    auto_on-IsSwitchedOn _ k (auto_off-allowed _ k (user_on-IsSwitchedOn w).0),
  )
