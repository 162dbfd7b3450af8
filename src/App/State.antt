-- ===== src/App/State.antt =====
-- The C globals of the application core, file by file.
use hubble_reference_thingy.Common.{ℕ, ◌^◌, ◌%◌, Bool, List}
use hubble_reference_thingy.Common.Int.{ℤ}
use hubble_reference_thingy.Common.Effects.{World, Env, M, modify}
use hubble_reference_thingy.App.Calls.{Call, BtData}

-- `struct _sat_pass` of sat_board.c: a uint32_t and a uint16_t
pub record Pass : Type 0 where
  pub timestamp : ℕ
  pub duration : ℕ

-- the fields of the SDK's pass that the code reads, in milliseconds
pub record PassInfo : Type 0 where
  pub start : ℕ
  pub duration : ℕ

-- the statics of sat_board.c
pub record Sat : Type 0 where
  pub power : ℤ
  pub retransmission_s : ℕ
  pub custom_buffer : List ℕ
  pub custom_size : ℕ
  pub payload_type : ℕ
  pub transmitting : Bool
  pub next_pass : PassInfo
  -- the location, as the bytes of two doubles
  pub lat : List ℕ
  pub lon : List ℕ
  pub passes : List Pass
  pub idx : ℕ
  pub count : ℕ

-- the statics of ble.c
pub record Ble : Type 0 where
  pub off_by_user : Bool
  pub ad0 : BtData
  pub ad1 : BtData
  pub ad_buffer : List ℕ

-- those of nvs.c
pub record Nvs : Type 0 where
  pub sector_size : ℕ
  pub sector_count : ℕ

pub record App : Type 0 where
  pub sat : Sat
  pub ble : Ble
  pub nvs : Nvs
  -- _hubble_key and utc_time of main.c
  pub hubble_key : List ℕ
  pub utc_time : ℕ

abbrev pub AppEnv : Type 0
AppEnv = Env App Call

abbrev pub AppM : Type 0 → Type 0
AppM = M App Call

abbrev pub AppWorld : Type 0
AppWorld = World App Call

abbrev pub u8 : ℕ → ℕ
u8 n = n % 2 ^ 8

abbrev pub u16 : ℕ → ℕ
u16 n = n % 2 ^ 16

abbrev pub u32 : ℕ → ℕ
u32 n = n % 2 ^ 32

abbrev pub u64 : ℕ → ℕ
u64 n = n % 2 ^ 64

abbrev pub with_sat : (Sat → Sat) → App → App
with_sat f a = record a { sat = f a.sat }

abbrev pub with_ble : (Ble → Ble) → App → App
with_ble f a = record a { ble = f a.ble }

abbrev pub modify_sat : (Sat → Sat) → AppM (Unit {0})
modify_sat f = modify (with_sat f)

abbrev pub modify_ble : (Ble → Ble) → AppM (Unit {0})
modify_ble f = modify (with_ble f)
