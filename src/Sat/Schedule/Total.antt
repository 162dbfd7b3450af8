-- ===== src/Sat/Schedule/Total.antt =====
-- The loops of sat_schedule_next_transmission in app/src/sat_board.c come to an end.
use hubble_reference_thingy.Common.{
  ℕ, zero, suc, ◌+◌, ◌-◌, ◌/◌, ◌^◌, ◌≤◌, ◌<◌, ◌≡◌, refl, Bool, true, false, some, List, ◌∷◌, leb,
  leb→le, if◌then◌else◌, Bool-cases, inl, inr, arith,
}
use hubble_reference_thingy.Common.Int.{ℤ, pos, negsuc, is_zero}
use hubble_reference_thingy.Config.{Config}
use hubble_reference_thingy.App.{
  AppEnv, AppWorld, Sat, Call, u64, hubble_time_get, hubble_sat_next_pass_get, with_sat,
}
use hubble_reference_thingy.Common.Effects.{pure}
use hubble_reference_thingy.Sat.Passes.{pass_at, next_in_table}
use hubble_reference_thingy.Sat.Schedule.{
  arm, ms_per_s, pass_info_of, end_of, find_pass, schedule_from_table,
  sat_schedule_next_transmission,
}
use hubble_reference_thingy.Sat.Schedule.Predicted.{
  reply, is_found, asked, reply-found, find_pass_not_found, find_pass_started, find_pass_future,
}

-- What the search relies on: a pass that is found for `t` ends after `t`, lasts at most `longest`
-- milliseconds, and its end fits a uint64_t.
pub record IsPassSource (longest : ℕ) (env : AppEnv) : Type 0 where
  pub ends_after :
      (tr : List Call) (t : ℕ) (lat lon : List ℕ)
      → is_zero (env.ret tr (hubble_sat_next_pass_get t lat lon)) ≡ true
      → let p = pass_info_of (env.out tr (hubble_sat_next_pass_get t lat lon)) in
        t < p.start + p.duration
  pub short :
      (tr : List Call) (t : ℕ) (lat lon : List ℕ)
      → is_zero (env.ret tr (hubble_sat_next_pass_get t lat lon)) ≡ true
      → (pass_info_of (env.out tr (hubble_sat_next_pass_get t lat lon))).duration ≤ longest
  pub fits :
      (tr : List Call) (t : ℕ) (lat lon : List ℕ)
      → is_zero (env.ret tr (hubble_sat_next_pass_get t lat lon)) ≡ true
      → let p = pass_info_of (env.out tr (hubble_sat_next_pass_get t lat lon)) in
        p.start + p.duration < 2 ^ 64

find_pass_total :
    (env : AppEnv) (fuel now_ms t longest : ℕ) (w : AppWorld)
    → IsPassSource longest env
    → t ≤ now_ms + longest
    → now_ms + longest < t + fuel
    → (r : ℤ) × ((find_pass env fuel now_ms t w).0 ≡ some r)
find_pass_total env zero now_ms t longest w k b m = absurd (omega arith)
find_pass_total env (suc fuel) now_ms t longest w k b m = elim (Bool-cases (is_found env t w)) [
  | inr missing ↦ (negsuc 0, rw (find_pass_not_found env fuel now_ms t w missing) refl)
  | inl found ↦ elim (Bool-cases (leb (reply env t w).start now_ms)) [
    | inl started ↦
        let lat = w.state.sat.lat in
        let lon = w.state.sat.lon in
        let e = reply-found env t w found in
        let p = reply env t w in
        let ends : t < p.start + p.duration = rw e (k.ends_after w.trace t lat lon found) in
        let short : p.duration ≤ longest = rw e (k.short w.trace t lat lon found) in
        let fits : p.start + p.duration < 2 ^ 64 = rw e (k.fits w.trace t lat lon found) in
        let begun = leb→le _ _ started in
        rw (find_pass_started env fuel now_ms t w found started) (
          find_pass_total env fuel now_ms (end_of (reply env t w)) longest (asked env t w) k
            (omega arith) (omega arith))
    | inr later ↦ (pos 0, rw (find_pass_future env fuel now_ms t w found later) refl)
  ]
]

table_total :
    (r : Bool × Sat) (now_s : ℕ) (w : AppWorld)
    → (x : ℤ) × (((if r.0
            then arm (u64 ((pass_at r.1 r.1.idx).timestamp + 2 ^ 64 - now_s))
            else pure (some (negsuc 0)))
          w).0
        ≡ some x)
table_total (true, s) now_s w = (pos 0, refl)
table_total (false, s) now_s w = (negsuc 0, refl)

-- The search ends with a result, in either build, if its fuel is more than `longest`: every pass
-- that the SDK finds for a time is taken to end after that time, to last at most `longest`
-- milliseconds, and to end before 2 ^ 64.
pub sat_schedule_next_transmission_total :
    (c : Config) (env : AppEnv) (fuel longest : ℕ) (w : AppWorld)
    → IsPassSource longest env
    → longest < fuel
    → (r : ℤ) × ((sat_schedule_next_transmission c env fuel w).0 ≡ some r)
unfolding sat_schedule_next_transmission schedule_from_table
sat_schedule_next_transmission_total c env fuel longest w k enough =
    let now_ms = env.val w.trace hubble_time_get in
    let w' : AppWorld = record w { trace = hubble_time_get ∷ w.trace } in
    elim (Bool-cases c.pass_prediction) [
      | inl on ↦
          rw on (find_pass_total env fuel now_ms now_ms longest w' k (omega arith) (omega arith))
      | inr off ↦ rw off (
          table_total (next_in_table (now_ms / ms_per_s) w'.state.sat) (now_ms / ms_per_s)
            (record w' {
              state = with_sat (λ _. (next_in_table (now_ms / ms_per_s) w'.state.sat).1) w.state;
            }))
    ]
