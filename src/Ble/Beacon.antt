-- ===== src/Ble/Beacon.antt =====
-- The beacon of app/src/ble.c: what is advertised, the timer that renews it, and who holds the radio then.
use hubble_reference_thingy.Common.{
  ◌≡◌, ap, Bool, true, false, none, some, List, [], ◌∷◌, arith, length, take-append_length,
}
use hubble_reference_thingy.Common.Int.{is_zero}
use hubble_reference_thingy.Config.{Config}
use hubble_reference_thingy.App.{
  AppEnv, AppWorld, Call, ble_timer, k_timer_start, k_timer_stop, bt_le_adv_start,
  hubble_ble_advertise_get, uuid16_all, svc_data16, constant,
}
use hubble_reference_thingy.App.Locks.{radio}
use hubble_reference_thingy.Ble.Advertise.{
  ble_buffer_len, uuid_16_encode, ble_adv_start, ble_adv_stop, ble_work_handler,
}

-- Whether ble_timer was started last.
abbrev renewal_step : Call → Bool → Bool
renewal_step (k_timer_start ble_timer _ _) on = true
renewal_step (k_timer_stop ble_timer) on = false
renewal_step _ on = on

abbrev pub renewal : List Call → Bool
renewal [] = false
renewal (k ∷ tr) = renewal_step k (renewal tr)

ble_adv_start-renewal :
    (c : Config) (env : AppEnv) (w : AppWorld) → renewal (ble_adv_start c env w).1.trace ≡ true
unfolding ble_adv_start
ble_adv_start-renewal c env w = ground arith

-- Each renewal arms the timer for the next one, also where the SDK has no data or Bluetooth refuses the
-- advertisement: a failure does not end the beacon.
pub ble_work_handler-renewal :
    (c : Config) (env : AppEnv) (w : AppWorld) → renewal (ble_work_handler c env w).1.trace ≡ true
unfolding ble_work_handler
ble_work_handler-renewal c env w = ble_adv_start-renewal c env _

-- A renewal takes no mutex: one that runs while `radio_mutex` is free uses the radio without it.
pub ble_work_handler_unlocked :
    (c : Config) (env : AppEnv) (w : AppWorld)
    → radio w.trace ≡ some false
    → radio (ble_work_handler c env w).1.trace ≡ none
unfolding ble_work_handler ble_adv_stop ble_adv_start
ble_work_handler_unlocked c env w free = ground arith

-- the request for the data, and the calls before it
abbrev pub data_request : Call
data_request = hubble_ble_advertise_get ble_buffer_len

abbrev pub armed : Config → AppWorld → List Call
armed c w = k_timer_start ble_timer c.adv_frequency 0 ∷ w.trace

-- What the SDK gives is what is advertised: where it succeeded and said how many bytes it wrote,
-- the advertisement is the Hubble UUID and service data of just these bytes, not connectable.
pub ble_adv_start_content :
    (c : Config) (env : AppEnv) (w : AppWorld)
    → is_zero (env.ret (armed c w) data_request) ≡ true
    → env.val (armed c w) data_request ≡ length (env.out (armed c w) data_request)
    → (ble_adv_start c env w).1.trace
      ≡ bt_le_adv_start false
          (record { type = uuid16_all; bytes = constant (uuid_16_encode c.hubble_ble_uuid) })
          (record { type = svc_data16; bytes = constant (env.out (armed c w) data_request) })
          false
        ∷ data_request
        ∷ armed c w
unfolding ble_adv_start
ble_adv_start_content c env w ok len =
    let sent = take-append_length (env.out (armed c w) data_request) _ in
    rw (ok, len)
      (ap
        (λ bytes.
          bt_le_adv_start false
            (record { type = uuid16_all; bytes = constant (uuid_16_encode c.hubble_ble_uuid) })
            (record { type = svc_data16; bytes = constant bytes }) false
          ∷ data_request
          ∷ armed c w)
        sent)
