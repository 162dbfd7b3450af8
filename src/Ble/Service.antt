-- ===== src/Ble/Service.antt =====
-- What app/src/ble.c registers with Zephyr's Bluetooth: the GATT service with its characteristic, and
-- the callbacks of a connection.
use hubble_reference_thingy.Common.{ℕ, Bool, List, [], ◌∷◌}
use hubble_reference_thingy.Common.Int.{ℤ}
use hubble_reference_thingy.Config.{Config}
use hubble_reference_thingy.App.{AppEnv, AppM}
use hubble_reference_thingy.Ble.Advertise.{connected_cb, disconnected_cb}
use hubble_reference_thingy.Ble.Write.{chr_write_cb}

-- the numbers that BT_UUID_128_ENCODE takes
pub record Uuid128 : Type 0 where
  pub w32 : ℕ
  pub w1 : ℕ
  pub w2 : ℕ
  pub w3 : ℕ
  pub w48 : ℕ

-- BT_GATT_CHRC_WRITE, BT_GATT_CHRC_NOTIFY, BT_GATT_CHRC_WRITE_WITHOUT_RESP, BT_GATT_CHRC_EXT_PROP
pub data Chrc : Type 0 where
  write notify write_without_resp ext_prop : Chrc

-- BT_GATT_PERM_WRITE, BT_GATT_PERM_PREPARE_WRITE
pub data Perm : Type 0 where
  perm_write perm_prepare_write : Perm

-- a primary service with one characteristic, which has no function for reading
pub record Service : Type 0 where
  pub uuid : Uuid128
  pub chr_uuid : Uuid128
  pub props : List Chrc
  pub perm : List Perm
  pub write_cb : List ℕ → ℕ → Bool → AppM ℤ

abbrev svc_uuid : Uuid128
svc_uuid = record { w32 = 0xEF2DC9A1; w1 = 0x40BE; w2 = 0x44B6; w3 = 0x9DDA; w48 = 0x8A00FCD61DC0 }

abbrev chr_uuid : Uuid128
chr_uuid = record { w32 = 0xEF2DC9A1; w1 = 0x40BE; w2 = 0x44B6; w3 = 0x9DDA; w48 = 0x8A00FCD61DC1 }

abbrev pub vnd_svc : Config → AppEnv → Service
vnd_svc c env = record {
  uuid = svc_uuid;
  chr_uuid = chr_uuid;
  props = write ∷ notify ∷ write_without_resp ∷ ext_prop ∷ [];
  perm = perm_write ∷ perm_prepare_write ∷ [];
  write_cb = chr_write_cb c env;
}

-- struct bt_conn_cb
pub record ConnCb : Type 0 where
  pub connected : AppM (Unit {0})
  pub disconnected : AppM (Unit {0})

abbrev pub conn_callbacks : ConnCb
conn_callbacks = record { connected = connected_cb; disconnected = disconnected_cb }
