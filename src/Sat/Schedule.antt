-- ===== src/Sat/Schedule.antt =====
-- sat_schedule_next_transmission of app/src/sat_board.c: arm the timer for the next pass, from the
-- table or, with pass prediction, from the SDK.
pub mod FromTable
pub mod Finds
pub mod Predicted
pub mod Total
pub mod Earliest
pub mod Repeat
pub mod Builds
pub mod Tests
use hubble_reference_thingy.Common.{
  ℕ, zero, suc, ◌+◌, ◌-◌, ◌*◌, ◌/◌, ◌^◌, Bool, true, false, Option, none, some, List, [], ◌∷◌, leb,
  if◌then◌else◌, get_or,
}
use hubble_reference_thingy.Common.Int.{ℤ, pos, negsuc, is_zero}
use hubble_reference_thingy.Common.Effects.{pure, ◌>>=◌, ◌>>◌, gets, emit, call_out, call_val}
use hubble_reference_thingy.Config.{Config}
use hubble_reference_thingy.App.{
  App, AppEnv, AppM, Sat, PassInfo, modify_sat, u32, u64, sat_timer, k_timer_start, hubble_time_get,
  hubble_sat_next_pass_get, k_sem_give, timer_sem,
}
use hubble_reference_thingy.Sat.Passes.{pass_at, next_in_table}

-- MSEC_PER_SEC
abbrev pub ms_per_s : ℕ
ms_per_s = 1000

-- the fields that hubble_sat_next_pass_get writes
abbrev pub pass_info_of : List ℕ → PassInfo
pass_info_of out = record { start = get_or out 0 0; duration = get_or out 1 0 }

-- what the search leaves in `next_pass`: a call that fails may write nothing
abbrev pub pass_after : ℤ × List ℕ → PassInfo → PassInfo
pass_after (ret, []) p = if is_zero ret then pass_info_of [] else p
pass_after (ret, x ∷ out) p = pass_info_of (x ∷ out)

-- `next_pass.start + next_pass.duration`
abbrev pub end_of : PassInfo → ℕ
end_of p = u64 (p.start + p.duration)

-- _timer_cb, when that timer fires
unfoldable pub timer_cb : AppM (Unit {0})
timer_cb = emit (k_sem_give timer_sem)

abbrev pub arm : ℕ → AppM (Option ℤ)
arm timeout = do emit (k_timer_start sat_timer (u32 timeout) 0); pure (some (pos 0))

module _ (env : AppEnv) where
  -- The `do ... while` of the build with pass prediction; `none` says that the fuel ran out.
  unfoldable pub find_pass : ℕ → ℕ → ℕ → AppM (Option ℤ)
  find_pass zero now_ms t = pure none
  find_pass (suc fuel) now_ms t = do
    s ← gets (λ a. a.sat)
    r ← call_out env (hubble_sat_next_pass_get t s.lat s.lon)
    let p = pass_after r s.next_pass
    modify_sat (λ s. record s { next_pass = p })
    elim (is_zero r.0) [
      | false ↦ pure (some (negsuc 0))
      | true ↦ elim (leb p.start now_ms) [
        | true ↦ find_pass fuel now_ms (end_of p)
        | false ↦ arm (u64 (p.start + 2 ^ 64 - now_ms) / ms_per_s)
      ]
    ]

  -- the build without: `timeout` is computed in 64 bits and kept in 32
  unfoldable pub schedule_from_table : ℕ → AppM (Option ℤ)
  schedule_from_table now_ms = do
    s ← gets (λ a. a.sat)
    let r = next_in_table (now_ms / ms_per_s) s
    modify_sat (λ _. r.1)
    (if r.0
        then arm (u64 ((pass_at r.1 r.1.idx).timestamp + 2 ^ 64 - now_ms / ms_per_s))
        else pure (some (negsuc 0)))

unfoldable pub sat_schedule_next_transmission : Config → AppEnv → ℕ → AppM (Option ℤ)
sat_schedule_next_transmission c env fuel = do
  now_ms ← call_val env hubble_time_get
  if c.pass_prediction then find_pass env fuel now_ms now_ms else schedule_from_table env now_ms
