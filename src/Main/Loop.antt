-- ===== src/Main/Loop.antt =====
-- main of app/src/main.c: the start-up, up to the `while (true)`, and one round of that loop.
use hubble_reference_thingy.Common.{
  ℕ, Bool, true, false, Option, none, some, ◌==◌, not, if◌then◌else◌, length,
}
use hubble_reference_thingy.Common.Int.{ℤ, is_zero, is_neg}
use hubble_reference_thingy.Common.Effects.{pure, ◌>>=◌, ◌>>◌, gets, call, block, emit}
use hubble_reference_thingy.Config.{Config}
use hubble_reference_thingy.App.{
  AppEnv, AppM, key_sem, init_sem, timer_sem, forever, radio_mutex, bt_enable, bt_disable,
  stack_mark, hubble_init, hubble_sat_satellites_set, k_sem_give, k_sem_take, k_mutex_lock,
  k_mutex_unlock,
}
use hubble_reference_thingy.Sat.Schedule.{sat_schedule_next_transmission}
use hubble_reference_thingy.Sat.Transmit.{sat_transmit}
use hubble_reference_thingy.Ble.Advertise.{ble_init}
use hubble_reference_thingy.Ble.Switch.{ble_enable, ble_disable}
use hubble_reference_thingy.Main.Key.{crypto_key_set, key_get}
use hubble_reference_thingy.Main.Network.{ble_stack, sat_enable, sat_disable}

module _ (c : Config) (env : AppEnv) where
  -- the key from storage, else from the build
  unfoldable pub load_key : AppM (Unit {0})
  load_key = do
    found ← key_get c env
    (if is_zero found
        then emit (k_sem_give key_sem)
        else if not (length c.device_key == 0)
        then (do crypto_key_set c env c.device_key; pure tt)
        else pure tt)

  -- `none`: the loop is reached; `some err`: main returned `err`
  unfoldable pub register_satellites : AppM (Option ℤ)
  register_satellites =
      if c.pass_prediction
      then (do
        err ← call env hubble_sat_satellites_set
        pure (if is_zero err then none else some err))
      else pure none

  unfoldable pub boot : AppM (Option ℤ)
  unfolding load_key register_satellites
  boot = do
    load_key
    emit (stack_mark ble_stack)
    err ← call env bt_enable
    (if not (is_zero err) then pure (some err) else do
      err ← ble_init env
      (if not (is_zero err) then (do emit bt_disable; pure (some err)) else do
        block env (k_sem_take init_sem forever)
        block env (k_sem_take key_sem forever)
        utc_time ← gets (λ a. a.utc_time)
        key ← gets (λ a. a.hubble_key)
        err ← call env (hubble_init utc_time key)
        (if not (is_zero err) then pure (some err) else register_satellites)))

  -- The part of a round that holds the radio, from `_sat_enable` to `_sat_disable`. The result says
  -- whether the fuel for the send loop sufficed.
  unfoldable pub satellite_session : ℕ → AppM Bool
  satellite_session fuel = do
    err ← sat_enable c env
    sent ← (if is_neg err then pure (some err) else sat_transmit c env fuel)
    elim sent [ none ↦ pure false | some ret ↦ (do sat_disable env; pure true) ]

  -- the end of a round: the mutex is given back, then the mark is set
  unfoldable pub end_round : Bool → AppM Bool
  end_round false = pure false
  end_round true = do emit (k_mutex_unlock radio_mutex); emit (stack_mark ble_stack); pure true

  -- a round from the scheduling on
  unfoldable pub round_after : ℕ → Option ℤ → AppM Bool
  round_after fuel none = pure false
  round_after fuel (some _) = do
    ble_enable c env false
    block env (k_sem_take timer_sem forever)
    ble_disable env false
    block env (k_mutex_lock radio_mutex)
    end_round (← satellite_session fuel)

  -- one round of `while (true)`; the result is false if a loop in it ran out of fuel
  unfoldable pub main_round : ℕ → AppM Bool
  main_round fuel = do round_after fuel (← sat_schedule_next_transmission c env fuel)
