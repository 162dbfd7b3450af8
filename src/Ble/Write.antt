-- ===== src/Ble/Write.antt =====
-- The GATT characteristic of app/src/ble.c: _chr_write_cb takes the time, the satellite passes and
-- the location from the companion. The target is little-endian.
use hubble_reference_thingy.Common.{
  ℕ, zero, suc, ◌+◌, ◌-◌, ◌*◌, ◌^◌, Bool, true, false, List, ltb, ◌==◌, ◌&&◌, not, if◌then◌else◌,
  drop, get_or,
}
use hubble_reference_thingy.Common.Int.{ℤ, pos, neg, is_zero}
use hubble_reference_thingy.Common.Effects.{pure, ◌>>=◌, ◌>>◌, modify, call_val, emit}
use hubble_reference_thingy.Config.{Config}
use hubble_reference_thingy.App.{AppEnv, AppM, Sat, u64, modify_sat, hubble_time_set, k_uptime_get}
use hubble_reference_thingy.Sat.Passes.{sat_pass_add}
use hubble_reference_thingy.Sat.Payload.{exactly}

-- SPBLE_PKT_CMD, SPBLE_CMD_SETUTC, SPBLE_CMD_SETEPHEMERIS, SPBLE_CMD_SETLOCATION
abbrev pub pkt_cmd : ℕ
pkt_cmd = 2

abbrev pub cmd_setutc : ℕ
cmd_setutc = 2

abbrev pub cmd_setephemeris : ℕ
cmd_setephemeris = 7

abbrev cmd_setlocation : ℕ
cmd_setlocation = 9

-- the size of an ephemeris entry
abbrev pub entry_size : ℕ
entry_size = 6

-- the number that `n` bytes hold, the lowest first; a byte past the end of the memory reads as 0
unfoldable pub le_value : ℕ → List ℕ → ℕ
le_value zero bytes = 0
le_value (suc n) bytes = get_or bytes 0 0 + 256 * le_value n (drop 1 bytes)

-- device_location_set
unfoldable pub device_location_set : Config → List ℕ → List ℕ → Sat → Sat
device_location_set c lat lon s = if c.pass_prediction then record s { lat = lat; lon = lon } else s

-- the `for` over the entries: `count` rounds are left, `available` bytes are at `p`
unfoldable pub add_entries : Config → ℕ → ℕ → List ℕ → Sat → Sat
add_entries c zero available p s = s
add_entries c (suc count) available p s = elim (ltb available entry_size) [
  | true ↦ s
  | false ↦
      let r = sat_pass_add c (le_value 4 p) (le_value 2 (drop 4 p)) s in
      elim (is_zero r.0) [
        | false ↦ r.1
        | true ↦ add_entries c count (available - entry_size) (drop entry_size p) r.1
      ]
]

-- the case SPBLE_CMD_SETEPHEMERIS, over the memory at `req`
unfoldable pub set_ephemeris : Config → List ℕ → ℕ → Sat → Sat
set_ephemeris c req len s =
    if c.pass_prediction
    then s
    else if ltb 6 len
    then add_entries c (le_value 4 (drop 2 req)) (len - 2 - 4) (drop 6 req) s
    else s

module _ (c : Config) (env : AppEnv) where
  abbrev set_utc : List ℕ → AppM (Unit {0})
  set_utc req = do
    let utc = le_value 8 (drop 2 req)
    modify (λ a. record a { utc_time = utc })
    emit (hubble_time_set utc)
    uptime ← call_val env k_uptime_get
    modify (λ a. record a { utc_time = u64 (utc + 2 ^ 64 - uptime) })

  -- _chr_write_cb on the memory at `req`, of which the write is the first `len` bytes; `prepare` is
  -- BT_GATT_WRITE_FLAG_PREPARE
  unfoldable pub chr_write_cb : List ℕ → ℕ → Bool → AppM ℤ
  chr_write_cb req len prepare =
      let done : AppM ℤ = pure (pos len) in
      let bad_length : AppM ℤ = pure (neg c.err_attr_len) in
      if prepare
      then pure (pos 0)
      else if not (get_or req 0 0 == pkt_cmd)
      then done
      else if get_or req 1 0 == cmd_setutc
      then (if not (len == 10) then bad_length else do set_utc req; done)
      else if get_or req 1 0 == cmd_setephemeris
      then (do modify_sat (set_ephemeris c req len); done)
      else if get_or req 1 0 == cmd_setlocation
      then (if c.pass_prediction && not (len == 18) then bad_length else do
        modify_sat (device_location_set c (exactly 8 (drop 2 req)) (exactly 8 (drop 10 req)))
        done)
      else done
