-- ===== src/Sat/Schedule/Repeat.antt =====
-- With pass prediction (app/src/sat_board.c), when the rounds of main wait for one pass twice.
use hubble_reference_thingy.Common.{
  ℕ, ◌+◌, ◌-◌, ◌*◌, ◌/◌, ◌^◌, ◌≤◌, ◌<◌, ◌≡◌, sym, ap, ◌∙◌, ◌↔◌, true, Option, none, some, List, [],
  ◌∷◌, length, ltb, inl, inr, Bool-cases, ltb-false→le, arith,
}
use hubble_reference_thingy.Common.Int.{ℤ, pos, negsuc}
use hubble_reference_thingy.Config.{Config}
use hubble_reference_thingy.App.{AppEnv, AppWorld, PassInfo, u32, hubble_time_get}
use hubble_reference_thingy.Sat.Schedule.{ms_per_s, sat_schedule_next_transmission}
use hubble_reference_thingy.Sat.Schedule.Earliest.{
  next_to_come, next_to_come-started, AreOrdered, Predicts, starts, Chooses,
  sat_schedule_next_transmission_earliest,
}

next_to_come-lt :
    (now_ms : ℕ) (ps : List PassInfo) {p : PassInfo}
    → next_to_come now_ms ps ≡ some p
    → now_ms < p.start
next_to_come-lt now_ms [] h = cc
next_to_come-lt now_ms (q ∷ ps) {p = p} h = elim (Bool-cases (ltb now_ms q.start)) [
  | inl later ↦ ground arith
  | inr begun ↦
      next_to_come-lt now_ms ps
        (sym (next_to_come-started now_ms q ps (ltb-false→le _ _ begun)) ∙ h)
]

-- The choice stands until the pass begins.
next_to_come-stays :
    (now_ms later_ms : ℕ) (ps : List PassInfo) {p : PassInfo}
    → next_to_come now_ms ps ≡ some p
    → now_ms ≤ later_ms
    → later_ms < p.start
    → next_to_come later_ms ps ≡ some p
next_to_come-stays now_ms later_ms [] h le lt = cc
next_to_come-stays now_ms later_ms (q ∷ ps) {p = p} h le lt =
    elim (Bool-cases (ltb now_ms q.start)) [
      | inl later ↦ ground arith
      | inr begun ↦
          let past : q.start ≤ now_ms = ltb-false→le _ _ begun in
          next_to_come-started later_ms q ps (omega arith)
          ∙ next_to_come-stays now_ms later_ms ps (sym (next_to_come-started now_ms q ps past) ∙ h)
              le lt
    ]

Chooses-found :
    (o : Option PassInfo) (now_ms : ℕ) (w : AppWorld) (r : Option ℤ × AppWorld)
    → Chooses now_ms o w r
    → r.0 ≡ some (pos 0)
    → o ≡ some r.1.state.sat.next_pass
Chooses-found none now_ms w r h found = absurd (differ (sym h.0 ∙ found))
  where
    differ : ◌≡◌ {A = Option ℤ} (some (negsuc 0)) (some (pos 0)) → ⊥
    differ e = cc
Chooses-found (some p) now_ms w r h found = ap some (sym h.1)

-- the search arms the timer for `p`, to fire at once
abbrev pub ArmsAgain : PassInfo → AppWorld → Option ℤ × AppWorld → Type 0
ArmsAgain p w (ret, w') =
    (ret ≡ some (pos 0)) × (w'.state.sat.next_pass ≡ p) × (starts w'.trace ≡ 0 ∷ starts w.trace)

Chooses-again :
    (now_ms later_ms : ℕ) {o : Option PassInfo} (p : PassInfo) (w : AppWorld)
    (r : Option ℤ × AppWorld)
    → Chooses later_ms o w r
    → o ≡ some p
    → now_ms + (p.start - now_ms) / ms_per_s * ms_per_s ≤ later_ms
    → now_ms ≤ later_ms
    → ArmsAgain p w r
Chooses-again now_ms later_ms p w r h e fired le =
    let k : Chooses later_ms (some p) w r = rw e at h in
    let at_once : u32 ((p.start - later_ms) / ms_per_s) ≡ 0 = omega arith in
    (k.0, k.1, k.2 ∙ ap (λ s. s ∷ starts w.trace) at_once)

-- With pass prediction, a pass is waited for twice exactly when the search of the next round runs
-- before it has begun: where a scheduling has returned 0, and a later one, at the same place, runs no
-- earlier than the timer of the first fires, the later one arms the timer for the same pass again, to
-- fire at once, if and only if the pass has not begun. The passes are taken to be in order and not to
-- overlap, the SDK's search to find the first one that ends after its time, and the clock to fit 64
-- bits; the fuel is more than the number of passes.
pub sat_schedule_next_transmission_repeats :
    (c : Config) (env : AppEnv) (fuel begun : ℕ) (passes : List PassInfo) (w w' : AppWorld)
    → c.pass_prediction ≡ true
    → Predicts env w.state.sat.lat w.state.sat.lon passes
    → Predicts env w'.state.sat.lat w'.state.sat.lon passes
    → AreOrdered begun passes
    → length passes < fuel
    → let now_ms = env.val w.trace hubble_time_get in
      let later_ms = env.val w'.trace hubble_time_get in
      let r = sat_schedule_next_transmission c env fuel w in
      let p = r.1.state.sat.next_pass in
      now_ms < 2 ^ 64
      → later_ms < 2 ^ 64
      → r.0 ≡ some (pos 0)
      → now_ms + (p.start - now_ms) / ms_per_s * ms_per_s ≤ later_ms
      → ArmsAgain p w' (sat_schedule_next_transmission c env fuel w') ↔ (later_ms < p.start)
sat_schedule_next_transmission_repeats c env fuel begun passes w w' on k k' o enough n n' found
      fired =
    let now_ms = env.val w.trace hubble_time_get in
    let later_ms = env.val w'.trace hubble_time_get in
    let r = sat_schedule_next_transmission c env fuel w in
    let r' = sat_schedule_next_transmission c env fuel w' in
    let chosen =
      Chooses-found (next_to_come now_ms passes) now_ms w r
        (sat_schedule_next_transmission_earliest c env fuel begun passes w on k o n enough) found in
    let choice' =
      sat_schedule_next_transmission_earliest c env fuel begun passes w' on k' o n' enough in
    let le : now_ms ≤ later_ms = omega arith in
    (
      λ again. next_to_come-lt later_ms passes (
          Chooses-found (next_to_come later_ms passes) later_ms w' r' choice' again.0
          ∙ ap some again.1),
      λ lt.
          Chooses-again now_ms later_ms r.1.state.sat.next_pass w' r' choice'
            (next_to_come-stays now_ms later_ms passes chosen le lt) fired le,
    )
