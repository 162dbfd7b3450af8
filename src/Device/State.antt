-- ===== src/Device/State.antt =====
-- What holds of the globals of the application core (app/src/*.c) between any two of its steps: every
-- array keeps its length, every index stays inside its array, and the numbers named below fit their C types.
use hubble_reference_thingy.Common.{
  ℕ, zero, suc, ◌+◌, ◌*◌, ◌^◌, ◌≤◌, ◌<◌, ◌≡◌, List, [], ◌∷◌, ◌++◌, length, drop, get_or, replicate,
  set, arith, length-take, length-append, length-replicate,
}
use hubble_reference_thingy.Config.{Config}
use hubble_reference_thingy.App.{
  App, AppEnv, Sat, Ble, Pass, Call, AdBytes, constant, ad_buffer, base64_decode, nvs_read,
  hubble_ble_advertise_get, hubble_sat_next_pass_get,
}
use hubble_reference_thingy.Sat.Table.{IsTable}
use hubble_reference_thingy.Sat.Schedule.{pass_info_of}
use hubble_reference_thingy.Sat.Payload.{exactly}
use hubble_reference_thingy.Ble.Advertise.{ble_buffer_len}
use hubble_reference_thingy.Ble.Write.{le_value}
use hubble_reference_thingy.Ble.Ephemeris.{AreEntries}

-- a pointer of `app_ad` with its length: inside the buffer that it points to
abbrev pub IsWithin : AdBytes → Type 0
IsWithin (constant bytes) = Unit {0}
IsWithin (ad_buffer len) = len ≤ ble_buffer_len

pub record IsSat (payload_max : ℕ) (s : Sat) : Type 0 where
  pub table : IsTable s
  pub entries : AreEntries s.passes
  -- a uint8_t
  pub retransmission : s.retransmission_s < 2 ^ 8
  pub buffer : length s.custom_buffer ≡ payload_max
  -- in the packet's buffer, behind the channel's number
  pub size : 1 + s.custom_size ≤ payload_max
  -- two doubles
  pub latitude : length s.lat ≡ 8
  pub longitude : length s.lon ≡ 8
  -- a uint64_t
  pub start : s.next_pass.start < 2 ^ 64

pub record IsBle (b : Ble) : Type 0 where
  pub buffer : length b.ad_buffer ≡ ble_buffer_len
  pub within0 : IsWithin b.ad0.bytes
  pub within1 : IsWithin b.ad1.bytes

pub record IsApp (c : Config) (a : App) : Type 0 where
  pub sat : IsSat c.payload_max a.sat
  pub ble : IsBle a.ble
  pub key : length a.hubble_key ≡ c.key_size
  -- a uint64_t
  pub utc : a.utc_time < 2 ^ 64
  -- two uint16_t
  pub sector_size : a.nvs.sector_size < 2 ^ 16
  pub sector_count : a.nvs.sector_count < 2 ^ 16

-- What the calls that write into a buffer document, with the size that they are given, and what the
-- threads that run while a call blocks keep.
pub record IsWithinBounds (c : Config) (env : AppEnv) : Type 0 where
  pub decodes :
      (tr : List Call) (text : List ℕ) → length (env.out tr (base64_decode text)) ≤ c.key_size
  pub reads : (tr : List Call) (id len : ℕ) → length (env.out tr (nvs_read id len)) ≤ len
  pub gives :
      (tr : List Call) (len : ℕ)
      → (length (env.out tr (hubble_ble_advertise_get len)) ≤ len)
        × (env.val tr (hubble_ble_advertise_get len) ≤ len)
  pub times :
      (tr : List Call) (t : ℕ) (lat lon : List ℕ)
      → (pass_info_of (env.out tr (hubble_sat_next_pass_get t lat lon))).start < 2 ^ 64
  pub others : (tr : List Call) (k : Call) (a : App) → IsApp c a → IsApp c (env.others tr k a)

abbrev pub AreBytes : List ℕ → Type 0
AreBytes [] = Unit {0}
AreBytes (b ∷ bs) = (b < 256) × AreBytes bs

pub drop-AreBytes : (n : ℕ) (bs : List ℕ) → AreBytes bs → AreBytes (drop n bs)
drop-AreBytes zero bs h = h
drop-AreBytes (suc n) [] h = tt
drop-AreBytes (suc n) (b ∷ bs) h = drop-AreBytes n bs h.1

get_or-AreBytes : (i : ℕ) (bs : List ℕ) → AreBytes bs → get_or bs i 0 < 256
get_or-AreBytes i [] h = omega arith
get_or-AreBytes zero (b ∷ bs) h = h.0
get_or-AreBytes (suc i) (b ∷ bs) h = get_or-AreBytes i bs h.1

-- 256 ^ n
abbrev bound : ℕ → ℕ
bound zero = 1
bound (suc n) = 256 * bound n

le_value-bound : (n : ℕ) (bs : List ℕ) → AreBytes bs → le_value n bs < bound n
unfolding le_value
le_value-bound zero bs h = omega arith
le_value-bound (suc n) bs h =
    omega (arith, get_or-AreBytes 0 bs h, le_value-bound n (drop 1 bs) (drop-AreBytes 1 bs h))

pub le_value_u16 : (bs : List ℕ) → AreBytes bs → le_value 2 bs < 2 ^ 16
le_value_u16 bs h = le_value-bound 2 bs h

pub le_value_u32 : (bs : List ℕ) → AreBytes bs → le_value 4 bs < 2 ^ 32
le_value_u32 bs h = le_value-bound 4 bs h

pub length-exactly : (n : ℕ) (bs : List ℕ) → length (exactly n bs) ≡ n
length-exactly n bs = omega (
  arith,
  length-take n (bs ++ replicate n 0),
  length-append bs (replicate n 0),
  length-replicate {A = ℕ} n 0,
)

pub AreEntries-set :
    (ps : List Pass) (i : ℕ) (p : Pass)
    → AreEntries ps
    → (p.timestamp < 2 ^ 32) × (p.duration < 2 ^ 16)
    → AreEntries (set ps i p)
AreEntries-set [] i p h b = tt
AreEntries-set (q ∷ ps) zero p h b = (b.0, b.1, h.2)
AreEntries-set (q ∷ ps) (suc i) p h b = (h.0, h.1, AreEntries-set ps i p h.2 b)
