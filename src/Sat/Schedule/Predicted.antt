-- ===== src/Sat/Schedule/Predicted.antt =====
-- Scheduling with pass prediction: the `do ... while` over the SDK's passes in
-- app/src/sat_board.c. The SDK's answers are the environment's.
use hubble_reference_thingy.Common.{
  ℕ, zero, suc, ◌+◌, ◌-◌, ◌*◌, ◌/◌, ◌^◌, ◌≤◌, ◌<◌, ◌≡◌, refl, Bool, true, false, Option, some, List,
  [], ◌∷◌, leb, Bool-cases, inl, inr, arith,
}
use hubble_reference_thingy.Common.Int.{ℤ, pos, negsuc, is_zero}
use hubble_reference_thingy.Config.{Config}
use hubble_reference_thingy.App.{
  AppEnv, AppWorld, Call, PassInfo, u32, u64, sat_timer, k_timer_start, hubble_time_get,
  hubble_sat_next_pass_get, with_sat,
}
use hubble_reference_thingy.Sat.Schedule.{
  arm, ms_per_s, pass_info_of, pass_after, end_of, find_pass, sat_schedule_next_transmission,
}

-- A call that returned 0 has armed the timer for the pass that it stored, which is still to come:
-- the timer runs for the whole seconds that are left, so it never fires after the pass begins, and
-- less than a second before.
pub record ArmsPass (now_ms : ℕ) (w' : AppWorld) : Type 0 where
  pub timeout : ℕ
  pub before : List Call
  pub armed : w'.trace ≡ k_timer_start sat_timer (u32 timeout) 0 ∷ before
  pub future : now_ms < w'.state.sat.next_pass.start
  pub not_late : now_ms + timeout * ms_per_s ≤ w'.state.sat.next_pass.start
  pub not_early : w'.state.sat.next_pass.start < now_ms + (timeout + 1) * ms_per_s

-- every time that the SDK gives is a uint64_t
pub record AreTimes (env : AppEnv) : Type 0 where
  pub start_in :
      (tr : List Call) (t : ℕ) (lat lon : List ℕ)
      → (pass_info_of (env.out tr (hubble_sat_next_pass_get t lat lon))).start < 2 ^ 64

-- The SDK's answer to a search from `t`, whether it found a pass, and the world after the search.
abbrev pub request : ℕ → AppWorld → Call
request t w = hubble_sat_next_pass_get t w.state.sat.lat w.state.sat.lon

abbrev pub reply : AppEnv → ℕ → AppWorld → PassInfo
reply env t w =
    pass_after (env.ret w.trace (request t w), env.out w.trace (request t w)) w.state.sat.next_pass

abbrev pub is_found : AppEnv → ℕ → AppWorld → Bool
is_found env t w = is_zero (env.ret w.trace (request t w))

abbrev pub asked : AppEnv → ℕ → AppWorld → AppWorld
asked env t w = record {
  state = with_sat (λ s. record s { next_pass = reply env t w }) w.state;
  trace = request t w ∷ w.trace;
}

pass_after-found :
    (ret : ℤ) (out : List ℕ) (p : PassInfo)
    → is_zero ret ≡ true
    → pass_after (ret, out) p ≡ pass_info_of out
pass_after-found ret [] p h = rw h refl
pass_after-found ret (x ∷ out) p h = refl

pub reply-found :
    (env : AppEnv) (t : ℕ) (w : AppWorld)
    → is_found env t w ≡ true
    → reply env t w ≡ pass_info_of (env.out w.trace (request t w))
reply-found env t w h =
    pass_after-found (env.ret w.trace (request t w)) (env.out w.trace (request t w))
      w.state.sat.next_pass h

module _ (env : AppEnv) (fuel now_ms t : ℕ) (w : AppWorld) where
  pub find_pass_not_found :
      is_found env t w ≡ false
      → find_pass env (suc fuel) now_ms t w ≡ (some (negsuc 0), asked env t w)
  unfolding find_pass
  find_pass_not_found e = rw e refl

  pub find_pass_started :
      is_found env t w ≡ true
      → leb (reply env t w).start now_ms ≡ true
      → find_pass env (suc fuel) now_ms t w
        ≡ find_pass env fuel now_ms (end_of (reply env t w)) (asked env t w)
  unfolding find_pass
  find_pass_started e l = rw e (rw l refl)

  pub find_pass_future :
      is_found env t w ≡ true
      → leb (reply env t w).start now_ms ≡ false
      → find_pass env (suc fuel) now_ms t w
        ≡ arm (u64 ((reply env t w).start + 2 ^ 64 - now_ms) / ms_per_s) (asked env t w)
  unfolding find_pass
  find_pass_future e l = rw e (rw l refl)

find_pass-ArmsPass :
    (env : AppEnv) (fuel now_ms t : ℕ) (w : AppWorld)
    → AreTimes env
    → now_ms < 2 ^ 64
    → (find_pass env fuel now_ms t w).0 ≡ some (pos 0)
    → ArmsPass now_ms (find_pass env fuel now_ms t w).1
find_pass-ArmsPass env zero now_ms t w k n h = absurd (none_lem h)
  where
    none_lem : (find_pass env zero now_ms t w).0 ≡ some (pos 0) → ⊥
    none_lem p = unfold find_pass in cc
find_pass-ArmsPass env (suc fuel) now_ms t w k n h = elim (Bool-cases (is_found env t w)) [
  | inr missing ↦ absurd (not_found (rw (find_pass_not_found env fuel now_ms t w missing) at h))
  | inl found ↦ elim (Bool-cases (leb (reply env t w).start now_ms)) [
    | inl started ↦
        let e = find_pass_started env fuel now_ms t w found started in
        rw e (
          find_pass-ArmsPass env fuel now_ms (end_of (reply env t w)) (asked env t w) k n
            (rw e at h))
    | inr later ↦ rw (find_pass_future env fuel now_ms t w found later) (
        let b : (reply env t w).start < 2 ^ 64 =
          rw (reply-found env t w found) (k.start_in w.trace t w.state.sat.lat w.state.sat.lon) in
        let f : now_ms < (reply env t w).start = ground arith in
        record {
          timeout = u64 ((reply env t w).start + 2 ^ 64 - now_ms) / ms_per_s;
          before = request t w ∷ w.trace;
          armed = refl;
          future = f;
          not_late = omega arith;
          not_early = omega arith;
        })
  ]
]
  where
    not_found : ◌≡◌ {A = Option ℤ} (some (negsuc 0)) (some (pos 0)) → ⊥
    not_found p = cc

-- With pass prediction, a scheduling that returned 0 has armed the timer for the pass that it
-- stored. That pass is still to come; the timer fires no later than its begin, and less than a
-- second before. The SDK's times and the clock are taken to fit 64 bits.
pub sat_schedule_next_transmission_predicted :
    (c : Config) (env : AppEnv) (fuel : ℕ) (w : AppWorld)
    → c.pass_prediction ≡ true
    → AreTimes env
    → env.val w.trace hubble_time_get < 2 ^ 64
    → (sat_schedule_next_transmission c env fuel w).0 ≡ some (pos 0)
    → ArmsPass (env.val w.trace hubble_time_get) (sat_schedule_next_transmission c env fuel w).1
unfolding sat_schedule_next_transmission
sat_schedule_next_transmission_predicted c env fuel w on k n h =
    let now_ms = env.val w.trace hubble_time_get in
    rw on (
      find_pass-ArmsPass env fuel now_ms now_ms (record w { trace = hubble_time_get ∷ w.trace }) k n
        (rw on at h))
