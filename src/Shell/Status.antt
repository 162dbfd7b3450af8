-- ===== src/Shell/Status.antt =====
-- The commands of app/src/shell.c that report: status and time. A line shows a time in seconds; the
-- date that the C library's gmtime_r makes of it is left out.
use hubble_reference_thingy.Common.{ℕ, ◌/◌, ◌||◌, List, [], ◌∷◌, ◌==◌, not, if◌then◌else◌}
use hubble_reference_thingy.Common.Int.{ℤ, pos, is_zero, is_neg}
use hubble_reference_thingy.Common.Effects.{pure, ◌>>=◌, ◌>>◌, gets, call, call_out, call_val, emit}
use hubble_reference_thingy.Config.{Config}
use hubble_reference_thingy.App.{
  AppEnv, AppM, state_of_charge, voltage, waiting_time, waiting_key, beaconing, transmitting,
  next_scheduled, scheduled_at, time_is, battery, bt_is_ready, hubble_time_get,
  fuel_gauge_get_props, shell_print,
}
use hubble_reference_thingy.Sat.Passes.{sat_next_transmission_get}
use hubble_reference_thingy.Sat.Transmit.{sat_is_transmitting}
use hubble_reference_thingy.Main.Key.{crypto_key_is_set}

-- NUMBER_OF_TIMESTAMP_TO_PRINT
abbrev pub timestamps_to_print : Config → ℕ
timestamps_to_print c = if c.pass_prediction then 1 else 4

unfoldable pub print_times : List ℕ → AppM (Unit {0})
print_times [] = pure tt
print_times (t ∷ ts) = do emit (shell_print (scheduled_at t)); print_times ts

module _ (c : Config) (env : AppEnv) where
  -- the lines of _cmd_status up to the label `end`
  unfoldable pub print_state : AppM (Unit {0})
  unfolding print_times sat_next_transmission_get crypto_key_is_set
  print_state = do
    a ← gets (λ a. a)
    (if a.utc_time == 0
        then emit (shell_print waiting_time)
        else if not (crypto_key_is_set c a)
        then emit (shell_print waiting_key)
        else do
          ready ← call env bt_is_ready
          (if not (is_zero ready)
              then emit (shell_print beaconing)
              else if sat_is_transmitting a
              then emit (shell_print transmitting)
              else pure tt)
          (let (len, times) = sat_next_transmission_get c (timestamps_to_print c) a.sat in
              (if is_neg len || is_zero len
                then pure tt
                else do emit (shell_print next_scheduled); print_times times)))

  -- _cmd_status
  unfoldable pub cmd_status : AppM ℤ
  unfolding print_state
  cmd_status = do
    print_state
    (if c.fuel_gauge
        then (do
          r ← call_out env (fuel_gauge_get_props (state_of_charge ∷ voltage ∷ []))
          (if is_zero r.0 then emit (shell_print (battery r.1)) else pure tt)
          pure r.0)
        else pure (pos 0))

  -- _cmd_time
  unfoldable pub cmd_time : AppM ℤ
  cmd_time = do
    now_ms ← call_val env hubble_time_get
    emit (shell_print (if now_ms == 0 then waiting_time else time_is (now_ms / 1000)))
    pure (pos 0)
