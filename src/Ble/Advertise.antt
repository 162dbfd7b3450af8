-- ===== src/Ble/Advertise.antt =====
-- Advertising in app/src/ble.c: ble_init, ble_adv_start, ble_adv_stop, and the callbacks and work
-- items that call them.
use hubble_reference_thingy.Common.{
  ℕ, ◌/◌, ◌%◌, Bool, true, false, List, [], ◌∷◌, ◌==◌, not, if◌then◌else◌, take, memcpy, replicate,
}
use hubble_reference_thingy.Common.Int.{ℤ, is_zero}
use hubble_reference_thingy.Common.Effects.{pure, ◌>>=◌, ◌>>◌, gets, call, call_all, emit}
use hubble_reference_thingy.Config.{Config}
use hubble_reference_thingy.App.{
  AppEnv, AppM, Ble, BtData, AdBytes, constant, ad_buffer, uuid16_all, svc_data16, ble_timer,
  ble_work, provisioning_work, init_sem, modify_ble, k_timer_start, k_timer_stop, k_work_submit,
  k_sem_give, bt_le_adv_start, bt_le_adv_stop, hubble_ble_advertise_get,
}

-- HUBBLE_BLE_BUFFER_LEN and HUBBLE_BLE_UUID_CONNECTABLE
abbrev pub ble_buffer_len : ℕ
ble_buffer_len = 31

abbrev uuid_connectable : ℕ
uuid_connectable = 0xFCA7

-- BT_UUID_16_ENCODE
abbrev pub uuid_16_encode : ℕ → List ℕ
uuid_16_encode uuid = (uuid % 256) ∷ (uuid / 256) ∷ []

abbrev new_ble : Ble
new_ble = record {
  off_by_user = false;
  ad0 = record { type = uuid16_all; bytes = constant (uuid_16_encode uuid_connectable) };
  ad1 = record { type = svc_data16; bytes = constant (uuid_16_encode uuid_connectable) };
  ad_buffer = replicate ble_buffer_len 0;
}

-- the bytes that a pointer of `app_ad` stands for
abbrev pub content : List ℕ → AdBytes → AdBytes
content buffer (constant bytes) = constant bytes
content buffer (ad_buffer len) = constant (take len buffer)

abbrev resolved : Ble → BtData → BtData
resolved b d = record d { bytes = content b.ad_buffer d.bytes }

abbrev advertise : AppEnv → Bool → AppM ℤ
advertise env connectable = do
  b ← gets (λ a. a.ble)
  call env (bt_le_adv_start connectable (resolved b b.ad0) (resolved b b.ad1) connectable)

unfoldable pub ble_init : AppEnv → AppM ℤ
ble_init env = advertise env true

unfoldable pub ble_adv_start : Config → AppEnv → AppM ℤ
ble_adv_start c env = do
  emit (k_timer_start ble_timer c.adv_frequency 0)
  r ← call_all env (hubble_ble_advertise_get ble_buffer_len)
  modify_ble (λ b. record b { ad_buffer = memcpy b.ad_buffer 0 r.2 })
  (if not (is_zero r.0) then pure r.0 else do
    modify_ble (λ b. record b {
      ad0 = record { type = uuid16_all; bytes = constant (uuid_16_encode c.hubble_ble_uuid) };
      ad1 = record { type = svc_data16; bytes = ad_buffer r.1 };
    })
    advertise env false)

unfoldable pub ble_adv_stop : AppM (Unit {0})
ble_adv_stop = do emit bt_le_adv_stop; emit (k_timer_stop ble_timer)

-- _ble_work_handler and _adv_provisioning_work_handler, on the system work queue
unfoldable pub ble_work_handler : Config → AppEnv → AppM (Unit {0})
unfolding ble_adv_stop ble_adv_start
ble_work_handler c env = do ble_adv_stop; ble_adv_start c env; pure tt

unfoldable pub adv_provisioning_work_handler : AppEnv → AppM (Unit {0})
unfolding ble_init
adv_provisioning_work_handler env = do ble_init env; pure tt

-- _timer_ble_cb
unfoldable pub timer_ble_cb : AppM (Unit {0})
timer_ble_cb = emit (k_work_submit ble_work)

-- _connected_cb and _disconnected_cb
unfoldable pub connected_cb : AppM (Unit {0})
connected_cb = emit (k_timer_stop ble_timer)

unfoldable pub disconnected_cb : AppM (Unit {0})
disconnected_cb = do
  utc_time ← gets (λ a. a.utc_time)
  (if utc_time == 0 then emit (k_work_submit provisioning_work) else emit (k_sem_give init_sem))
