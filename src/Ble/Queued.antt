-- ===== src/Ble/Queued.antt =====
-- The renewal of the beacon in app/src/ble.c that is queued when Bluetooth is switched off.
use hubble_reference_thingy.Common.{
  ℕ, zero, suc, ◌+◌, ◌≡◌, refl, Bool, true, false, List, [], ◌∷◌, arith,
}
use hubble_reference_thingy.Common.Int.{is_zero}
use hubble_reference_thingy.Config.{Config}
use hubble_reference_thingy.App.{AppEnv, AppWorld, Call, bt_le_adv_start, hubble_ble_advertise_get}
use hubble_reference_thingy.Ble.Advertise.{
  ble_buffer_len, ble_adv_start, ble_adv_stop, ble_work_handler, timer_ble_cb,
}
use hubble_reference_thingy.Ble.Switch.{ble_disable}
use hubble_reference_thingy.Ble.Policy.{IsSwitchedOff, user_off-IsSwitchedOff}
use hubble_reference_thingy.Ble.Beacon.{renewal, ble_work_handler-renewal}

abbrev request_step : Call → ℕ → ℕ
request_step (hubble_ble_advertise_get _) n = suc n
request_step _ n = n

-- how often the SDK was asked for data to advertise
abbrev pub requests : List Call → ℕ
requests [] = 0
requests (k ∷ tr) = request_step k (requests tr)

abbrev start_step : Call → ℕ → ℕ
start_step (bt_le_adv_start _ _ _ _) n = suc n
start_step _ n = n

-- how often Bluetooth was asked to advertise
abbrev pub starts : List Call → ℕ
starts [] = 0
starts (k ∷ tr) = start_step k (starts tr)

-- the SDK always has data to advertise
pub record HasData (env : AppEnv) : Type 0 where
  pub data_ready :
      (tr : List Call) → is_zero (env.ret tr (hubble_ble_advertise_get ble_buffer_len)) ≡ true

ble_work_handler-starts :
    (c : Config) (env : AppEnv) (w : AppWorld)
    → HasData env
    → starts (ble_work_handler c env w).1.trace ≡ 1 + starts w.trace
unfolding ble_work_handler ble_adv_stop ble_adv_start
ble_work_handler-starts c env w d = grind (arith, d.data_ready)

ble_disable-starts :
    (env : AppEnv) (user_requested : Bool) (w : AppWorld)
    → starts (ble_disable env user_requested w).1.trace ≡ starts w.trace
unfolding ble_disable ble_adv_stop
ble_disable-starts env u w = ground arith

ble_adv_start-requests :
    (c : Config) (env : AppEnv) (w : AppWorld)
    → requests (ble_adv_start c env w).1.trace ≡ 1 + requests w.trace
unfolding ble_adv_start
ble_adv_start-requests c env w = ground arith

ble_work_handler-requests :
    (c : Config) (env : AppEnv) (w : AppWorld)
    → requests (ble_work_handler c env w).1.trace ≡ 1 + requests w.trace
unfolding ble_work_handler ble_adv_stop
ble_work_handler-requests c env w = grind (arith, ble_adv_start-requests)

ble_work_handler-IsSwitchedOff :
    (c : Config) (env : AppEnv) (w : AppWorld)
    → IsSwitchedOff w
    → IsSwitchedOff (ble_work_handler c env w).1
unfolding ble_work_handler ble_adv_stop ble_adv_start
ble_work_handler-IsSwitchedOff c env w h = ground arith

ble_disable-requests :
    (env : AppEnv) (user_requested : Bool) (w : AppWorld)
    → requests (ble_disable env user_requested w).1.trace ≡ requests w.trace
unfolding ble_disable ble_adv_stop
ble_disable-requests env u w = ground arith

module _ (c : Config) (env : AppEnv) where
  -- `n` periods: the timer fires and queues a renewal, which then runs
  abbrev pub periods : ℕ → AppWorld → AppWorld
  periods zero w = w
  periods (suc n) w = (ble_work_handler c env (timer_ble_cb (periods n w)).1).1

  periods-renewal :
      (n : ℕ) (w : AppWorld) → renewal w.trace ≡ true → renewal (periods n w).trace ≡ true
  periods-renewal zero w h = h
  periods-renewal (suc n) w h = ble_work_handler-renewal c env _

  periods-requests : (n : ℕ) (w : AppWorld) → requests (periods n w).trace ≡ n + requests w.trace
  unfolding timer_ble_cb
  periods-requests zero w = omega arith
  periods-requests (suc n) w =
      omega (
        arith,
        ble_work_handler-requests c env (timer_ble_cb (periods n w)).1,
        periods-requests n w,
      )

  periods-starts :
      (n : ℕ) (w : AppWorld) → HasData env → starts (periods n w).trace ≡ n + starts w.trace
  unfolding timer_ble_cb
  periods-starts zero w d = omega arith
  periods-starts (suc n) w d =
      omega (
        arith,
        ble_work_handler-starts c env (timer_ble_cb (periods n w)).1 d,
        periods-starts n w d,
      )

  periods-IsSwitchedOff : (n : ℕ) (w : AppWorld) → IsSwitchedOff w → IsSwitchedOff (periods n w)
  unfolding timer_ble_cb
  periods-IsSwitchedOff zero w h = h
  periods-IsSwitchedOff (suc n) w h =
      ble_work_handler-IsSwitchedOff c env _ (periods-IsSwitchedOff n w h)

  -- A renewal that is queued when the user switches Bluetooth off undoes what ble_disable did to the
  -- renewals: it arms the timer that ble_disable has stopped, and from then on each period arms it
  -- again, asks the SDK for data and asks Bluetooth to advertise, however many periods go by,
  -- while the user's choice is still that Bluetooth is off and nothing has switched it on. The SDK is
  -- taken to have data.
  pub queued_renewal_outlives_disable :
      (w : AppWorld) (n : ℕ)
      → HasData env
      → (renewal (ble_disable env true w).1.trace ≡ false)
        × (let w' = periods n (ble_work_handler c env (ble_disable env true w).1).1 in
            IsSwitchedOff w'
            × (renewal w'.trace ≡ true)
            × (requests w'.trace ≡ suc n + requests w.trace)
            × (starts w'.trace ≡ suc n + starts w.trace))
  unfolding ble_disable ble_adv_stop
  queued_renewal_outlives_disable w n d =
      let off = (ble_disable env true w).1 in
      let started = (ble_work_handler c env off).1 in
      (
        refl,
        (
          periods-IsSwitchedOff n started
              (ble_work_handler-IsSwitchedOff c env off (user_off-IsSwitchedOff env w)),
          periods-renewal n started (ble_work_handler-renewal c env off),
          omega (
            arith,
            periods-requests n started,
            ble_work_handler-requests c env off,
            ble_disable-requests env true w,
          ),
          omega (
            arith,
            periods-starts n started d,
            ble_work_handler-starts c env off d,
            ble_disable-starts env true w,
          ),
        ),
      )
