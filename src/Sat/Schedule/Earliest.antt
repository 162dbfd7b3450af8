-- ===== src/Sat/Schedule/Earliest.antt =====
-- Scheduling with pass prediction (app/src/sat_board.c) against the list of passes to come: which of
-- them the search chooses.
use hubble_reference_thingy.Common.{
  ℕ, zero, suc, ◌+◌, ◌-◌, ◌/◌, ◌^◌, ◌≤◌, ◌<◌, ◌≡◌, refl, ap, ◌∙◌, true, false, Option, none, some,
  List, [], ◌∷◌, length, ltb, leb, if◌then◌else◌, ◌⊎◌, inl, inr, Bool-cases, ltb→lt, lt→ltb,
  ltb-false→le, le→ltb-false, leb→le, arith,
}
use hubble_reference_thingy.Common.Int.{ℤ, pos, negsuc, is_zero}
use hubble_reference_thingy.Config.{Config}
use hubble_reference_thingy.App.{
  AppEnv, AppWorld, Call, PassInfo, u32, u64, sat_timer, k_timer_start, hubble_time_get,
  hubble_sat_next_pass_get,
}
use hubble_reference_thingy.Sat.Schedule.{
  ms_per_s, pass_info_of, end_of, find_pass, sat_schedule_next_transmission,
}
use hubble_reference_thingy.Sat.Schedule.Predicted.{
  reply, is_found, asked, reply-found, find_pass_not_found, find_pass_started, find_pass_future,
}

-- the first pass that ends after `t`, which may have begun before
abbrev pub first_ending_after : ℕ → List PassInfo → Option PassInfo
first_ending_after t [] = none
first_ending_after t (p ∷ ps) =
    if ltb t (p.start + p.duration) then some p else first_ending_after t ps

-- the first pass that begins after `now_ms`
abbrev pub next_to_come : ℕ → List PassInfo → Option PassInfo
next_to_come now_ms [] = none
next_to_come now_ms (p ∷ ps) = if ltb now_ms p.start then some p else next_to_come now_ms ps

-- Passes in the order of time from `begun` on, of which no two overlap; their times are uint64_t.
abbrev pub AreOrdered : ℕ → List PassInfo → Type 0
AreOrdered begun [] = Unit {0}
AreOrdered begun (p ∷ ps) =
    (begun ≤ p.start)
    × (0 < p.duration)
    × (p.start + p.duration < 2 ^ 64)
    × AreOrdered (p.start + p.duration) ps

abbrev pub IsAnswer : Option PassInfo → ℤ → List ℕ → Type 0
IsAnswer none ret out = is_zero ret ≡ false
IsAnswer (some p) ret out = (is_zero ret ≡ true) × (pass_info_of out ≡ p)

-- The SDK's search at a place, for the passes `ps` over it: it finds the first one that ends after the
-- time that it is given, "in the middle of it" or not.
pub record Predicts (env : AppEnv) (lat lon : List ℕ) (ps : List PassInfo) : Type 0 where
  pub answers :
      (tr : List Call) (t : ℕ)
      → let k = hubble_sat_next_pass_get t lat lon in
        IsAnswer (first_ending_after t ps) (env.ret tr k) (env.out tr k)

-- the first expiries, in seconds, that the satellite timer was started with, the latest first
abbrev start_step : Call → List ℕ → List ℕ
start_step (k_timer_start sat_timer s _) l = s ∷ l
start_step _ l = l

abbrev pub starts : List Call → List ℕ
starts [] = []
starts (k ∷ tr) = start_step k (starts tr)

-- What a search does that has the pass `o` to choose.
abbrev pub Chooses : ℕ → Option PassInfo → AppWorld → Option ℤ × AppWorld → Type 0
Chooses now_ms none w (ret, w') = (ret ≡ some (negsuc 0)) × (starts w'.trace ≡ starts w.trace)
Chooses now_ms (some p) w (ret, w') =
    (ret ≡ some (pos 0))
    × (w'.state.sat.next_pass ≡ p)
    × (starts w'.trace ≡ u32 ((p.start - now_ms) / ms_per_s) ∷ starts w.trace)

-- Only the timers started before count.
Chooses-starts :
    (o : Option PassInfo) (now_ms : ℕ) (w w' : AppWorld) (r : Option ℤ × AppWorld)
    → starts w'.trace ≡ starts w.trace
    → Chooses now_ms o w' r
    → Chooses now_ms o w r
Chooses-starts none now_ms w w' r e h = rw (← e) h
Chooses-starts (some p) now_ms w w' r e h = rw (← e) h

answer-some :
    {o : Option PassInfo} (ret : ℤ) (out : List ℕ) (p : PassInfo)
    → IsAnswer o ret out
    → o ≡ some p
    → (is_zero ret ≡ true) × (pass_info_of out ≡ p)
answer-some ret out p h e = rw e at h

first_ending_after-ended :
    (t : ℕ) (p : PassInfo) (ps : List PassInfo)
    → p.start + p.duration ≤ t
    → first_ending_after t (p ∷ ps) ≡ first_ending_after t ps
first_ending_after-ended t p ps h = rw (le→ltb-false t (p.start + p.duration) h) refl

pub next_to_come-started :
    (now_ms : ℕ) (p : PassInfo) (ps : List PassInfo)
    → p.start ≤ now_ms
    → next_to_come now_ms (p ∷ ps) ≡ next_to_come now_ms ps
next_to_come-started now_ms p ps h = rw (le→ltb-false now_ms p.start h) refl

pub next_to_come-later :
    (now_ms : ℕ) (p : PassInfo) (ps : List PassInfo)
    → now_ms < p.start
    → next_to_come now_ms (p ∷ ps) ≡ some p
next_to_come-later now_ms p ps h = rw (lt→ltb now_ms p.start h) refl

answer-none :
    {o : Option PassInfo} (ret : ℤ) (out : List ℕ)
    → IsAnswer o ret out
    → o ≡ none
    → is_zero ret ≡ false
answer-none ret out h e = rw e at h

module _ (env : AppEnv) (all : List PassInfo) where
  -- `rest` is what is left of the passes for a search from `t`.
  find_pass-Chooses :
      (rest : List PassInfo) (fuel now_ms t begun : ℕ) (w : AppWorld)
      → Predicts env w.state.sat.lat w.state.sat.lon all
      → now_ms < 2 ^ 64
      → ((t' : ℕ) → t ≤ t' → first_ending_after t' all ≡ first_ending_after t' rest)
      → AreOrdered begun rest
      → (t ≤ now_ms) ⊎ (t ≤ begun)
      → length rest < fuel
      → Chooses now_ms (next_to_come now_ms rest) w (find_pass env fuel now_ms t w)
  find_pass-Chooses rest zero now_ms t begun w k n f o i enough = absurd (omega arith)
  find_pass-Chooses [] (suc fuel) now_ms t begun w k n f o i enough =
      let missing : is_found env t w ≡ false =
        answer-none _ _ (k.answers w.trace t) (f t (omega arith)) in
      rw (find_pass_not_found env fuel now_ms t w missing) (refl, refl)
  find_pass-Chooses (p ∷ rest) (suc fuel) now_ms t begun w k n f o i enough =
      let ended = λ (t' : ℕ) (le : t ≤ t') (over : p.start + p.duration ≤ t').
        f t' le ∙ first_ending_after-ended t' p rest over in
      let (after, lasts, fits, ordered) = o in
      elim (Bool-cases (ltb t (p.start + p.duration))) [
        | inr over ↦
            let past : p.start + p.duration ≤ t = ltb-false→le _ _ over in
            let now : t ≤ now_ms = ground arith in
            rw (next_to_come-started now_ms p rest (omega arith)) (
              find_pass-Chooses rest (suc fuel) now_ms t (p.start + p.duration) w k n
                (λ t' le. ended t' le (omega arith)) ordered (inl now) (omega arith))
        | inl ends ↦
            let (found, info) = answer-some _ _ p (k.answers w.trace t) (
              f t (omega arith) ∙ ap (λ b. if b then some p else first_ending_after t rest) ends) in
            let rep : reply env t w ≡ p = reply-found env t w found ∙ info in
            elim (Bool-cases (leb p.start now_ms)) [
              | inl started ↦
                  let past : p.start ≤ now_ms = leb→le _ _ started in
                  let lt = ltb→lt _ _ ends in
                  let whole : end_of p ≡ p.start + p.duration = omega arith in
                  let e : end_of (reply env t w) ≡ p.start + p.duration = ap end_of rep ∙ whole in
                  let rest_lem =
                    find_pass-Chooses rest fuel now_ms (end_of (reply env t w))
                      (p.start + p.duration) (asked env t w) k n
                      (λ t' le. ended t' (omega arith) (omega arith)) ordered (inr (omega arith))
                      (omega arith) in
                  let begun_before = ap (λ q. leb q.start now_ms) rep ∙ started in
                  rw
                    (
                      next_to_come-started now_ms p rest past,
                      find_pass_started env fuel now_ms t w found begun_before,
                    )
                    (Chooses-starts (next_to_come now_ms rest) now_ms w (asked env t w) _ refl
                      rest_lem)
              | inr later ↦
                  let future : now_ms < p.start = ground arith in
                  let not_begun = ap (λ q. leb q.start now_ms) rep ∙ later in
                  let timeout : u64 (p.start + 2 ^ 64 - now_ms) ≡ p.start - now_ms = omega arith in
                  rw
                    (
                      next_to_come-later now_ms p rest future,
                      find_pass_future env fuel now_ms t w found not_begun,
                      rep,
                    )
                    (refl, refl, ap (λ s. u32 (s / ms_per_s) ∷ starts w.trace) timeout)
            ]
      ]

-- With pass prediction, scheduling chooses the first of the predicted passes that begins after the
-- clock's time, and none but where no pass is left: it then returns 0, keeps that pass, and starts the
-- timer once, with the whole seconds up to its begin (in 32 bits); else it returns -1 and starts no
-- timer. The passes are taken to be in order and not to overlap, the SDK's search to find the first one
-- that ends after its time, and the clock to fit 64 bits; as much fuel as passes, and one more, is
-- enough.
pub sat_schedule_next_transmission_earliest :
    (c : Config) (env : AppEnv) (fuel begun : ℕ) (passes : List PassInfo) (w : AppWorld)
    → c.pass_prediction ≡ true
    → Predicts env w.state.sat.lat w.state.sat.lon passes
    → AreOrdered begun passes
    → env.val w.trace hubble_time_get < 2 ^ 64
    → length passes < fuel
    → let now_ms = env.val w.trace hubble_time_get in
      Chooses now_ms (next_to_come now_ms passes) w (sat_schedule_next_transmission c env fuel w)
unfolding sat_schedule_next_transmission
sat_schedule_next_transmission_earliest c env fuel begun passes w on k ordered n enough =
    let now_ms = env.val w.trace hubble_time_get in
    let w' : AppWorld = record w { trace = hubble_time_get ∷ w.trace } in
    let r =
      find_pass-Chooses env passes passes fuel now_ms now_ms begun w' k n (λ t' le. refl) ordered
        (inl (omega arith)) enough in
    rw on (Chooses-starts (next_to_come now_ms passes) now_ms w w' _ refl r)
