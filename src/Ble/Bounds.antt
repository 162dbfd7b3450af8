-- ===== src/Ble/Bounds.antt =====
-- What _chr_write_cb of app/src/ble.c reads, what it refuses, and what it keeps.
use hubble_reference_thingy.Common.{
  ℕ, zero, suc, ◌+◌, ◌-◌, ◌*◌, ◌^◌, ◌≤◌, ◌<◌, ◌≡◌, refl, ap, ◌∙◌, Bool, true, false, List, [], ◌∷◌,
  drop, take, replicate, drop-take, get_or-take, take-take_append, ltb, ltb-false→le, ◌==◌,
  Bool-cases, inl, inr, arith,
}
use hubble_reference_thingy.Common.Int.{pos, is_zero, is_neg}
use hubble_reference_thingy.Config.{Config}
use hubble_reference_thingy.App.{AppEnv, AppWorld, Sat, u64, hubble_time_set, k_uptime_get}
use hubble_reference_thingy.Sat.Passes.{sat_pass_add}
use hubble_reference_thingy.Sat.Payload.{exactly}
use hubble_reference_thingy.Sat.Table.{IsTable}
use hubble_reference_thingy.Ble.Write.{
  pkt_cmd, cmd_setutc, entry_size, le_value, add_entries, set_ephemeris, device_location_set,
  chr_write_cb,
}
use hubble_reference_thingy.Ble.Ephemeris.{le_bytes, le_value_8, set_ephemeris-IsTable}

le_value-take : (n k : ℕ) (p : List ℕ) → n ≤ k → le_value n (take k p) ≡ le_value n p
unfolding le_value
le_value-take zero k p h = refl
le_value-take (suc n) zero p h = absurd (omega arith)
le_value-take (suc n) (suc k) [] h = refl
le_value-take (suc n) (suc k) (x ∷ p) h = ap (λ v. x + 256 * v) (le_value-take n k p (omega arith))

entry_take :
    (available : ℕ) (p : List ℕ)
    → entry_size ≤ available
    → (le_value 4 (take available p) ≡ le_value 4 p)
      × (le_value 2 (drop 4 (take available p)) ≡ le_value 2 (drop 4 p))
entry_take available p h = (
  le_value-take 4 available p (omega arith),
  ap (le_value 2) (drop-take 4 available p)
      ∙ le_value-take 2 (available - 4) (drop 4 p) (omega arith),
)

add_entries-take :
    (c : Config) (count available : ℕ) (p : List ℕ) (s : Sat)
    → add_entries c count available (take available p) s ≡ add_entries c count available p s
unfolding add_entries
add_entries-take c zero available p s = refl
add_entries-take c (suc count) available p s = elim (Bool-cases (ltb available entry_size)) [
  | inl short ↦ rw (short, add_entries) refl
  | inr long ↦
      let (e4, e2) = entry_take available p (ltb-false→le available entry_size long) in
      let rest = add_entries-take c count (available - entry_size) (drop entry_size p) in
      let shifted = drop-take entry_size available p in
      rw (long, add_entries)
        (rw e4 (
          rw e2
            (elim (Bool-cases
              (is_zero (sat_pass_add c (le_value 4 p) (le_value 2 (drop 4 p)) s).0)) [
                | inr refused ↦ rw refused (rw e4 (rw e2 refl))
                | inl taken ↦ rw taken (rw e4 (rw e2 (rw shifted (rest _))))
              ])))
]

set_ephemeris-take :
    (c : Config) (len : ℕ) (req : List ℕ) (s : Sat)
    → set_ephemeris c (take len req) len s ≡ set_ephemeris c req len s
unfolding set_ephemeris
set_ephemeris-take c len req s = elim (Bool-cases (ltb 6 len)) [
  | inl long ↦
      let e4 : le_value 4 (drop 2 (take len req)) ≡ le_value 4 (drop 2 req) =
        ap (le_value 4) (drop-take 2 len req)
        ∙ le_value-take 4 (len - 2) (drop 2 req) (ground arith) in
      let rest : add_entries c (le_value 4 (drop 2 req)) (len - 2 - 4) (drop 6 (take len req)) s
          ≡ add_entries c (le_value 4 (drop 2 req)) (len - 2 - 4) (drop 6 req) s =
        let n : len - 6 ≡ len - 2 - 4 = omega arith in
        let d : drop 6 (take len req) ≡ take (len - 2 - 4) (drop 6 req) =
          drop-take 6 len req ∙ ap (λ k. take k (drop 6 req)) n in
        rw d (add_entries-take c (le_value 4 (drop 2 req)) (len - 2 - 4) (drop 6 req) s) in
      rw long (rw e4 (rw rest refl))
  | inr short ↦ rw short refl
]

utc_take :
    (len : ℕ) (req : List ℕ)
    → (len == 10) ≡ true
    → le_value 8 (drop 2 (take len req)) ≡ le_value 8 (drop 2 req)
utc_take len req h =
    ap (le_value 8) (drop-take 2 len req) ∙ le_value-take 8 (len - 2) (drop 2 req) (ground arith)

exactly-take :
    (n k len : ℕ) (req : List ℕ)
    → k + n ≤ len
    → exactly n (drop k (take len req)) ≡ exactly n (drop k req)
exactly-take n k len req h =
    ap (exactly n) (drop-take k len req)
    ∙ take-take_append n (len - k) (drop k req) (replicate n 0) (omega arith)

location_take :
    (k len : ℕ) (req : List ℕ)
    → k + 8 ≤ 18
    → (len == 18) ≡ true
    → exactly 8 (drop k (take len req)) ≡ exactly 8 (drop k req)
location_take k len req le h = exactly-take 8 k len req (ground arith)

-- A write of two bytes or more is read within its length: the memory behind it has no influence.
pub chr_write_cb-take :
    (c : Config) (env : AppEnv) (req : List ℕ) (len : ℕ) (prepare : Bool) (w : AppWorld)
    → 2 ≤ len
    → chr_write_cb c env (take len req) len prepare w ≡ chr_write_cb c env req len prepare w
unfolding chr_write_cb device_location_set
chr_write_cb-take c env req len prepare w h = ground (
  arith,
  get_or-take len 0 req 0,
  get_or-take len 1 req 0,
  utc_take len req,
  set_ephemeris-take c len req w.state.sat,
  location_take 2 len req,
  location_take 10 len req,
)

-- A write that is refused changes nothing and calls nothing.
pub chr_write_cb_refused :
    (c : Config) (env : AppEnv) (req : List ℕ) (len : ℕ) (prepare : Bool) (w : AppWorld)
    → is_neg (chr_write_cb c env req len prepare w).0 ≡ true
    → (chr_write_cb c env req len prepare w).1 ≡ w
unfolding chr_write_cb
chr_write_cb_refused c env req len prepare w h = ground arith

-- A well-formed pass table stays well-formed under any write, of whatever length and content.
pub chr_write_cb-IsTable :
    (c : Config) (env : AppEnv) (req : List ℕ) (len : ℕ) (prepare : Bool) (w : AppWorld)
    → IsTable w.state.sat
    → IsTable (chr_write_cb c env req len prepare w).1.state.sat
unfolding chr_write_cb device_location_set
chr_write_cb-IsTable c env req len prepare w v = ground (arith, set_ephemeris-IsTable c req len v)

-- A time message of ten bytes, with a time below 2 ^ 64, is taken: the SDK is told the time sent,
-- and the time of boot, the time sent less the uptime in 64 bits, is kept. Nothing else changes.
pub chr_write_cb_utc :
    (c : Config) (env : AppEnv) (utc : ℕ) (w : AppWorld)
    → utc < 2 ^ 64
    → let boot = u64 (utc + 2 ^ 64 - env.val (hubble_time_set utc ∷ w.trace) k_uptime_get) in
      chr_write_cb c env (pkt_cmd ∷ cmd_setutc ∷ le_bytes 8 utc) 10 false w ≡ (
        pos 10,
        record {
          state = record w.state { utc_time = boot };
          trace = k_uptime_get ∷ hubble_time_set utc ∷ w.trace;
        },
      )
unfolding chr_write_cb
chr_write_cb_utc c env utc w h =
    let e : le_value 8 (le_bytes 8 utc) ≡ utc = le_value_8 utc [] h in rw e refl
