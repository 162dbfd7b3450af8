-- ===== src/Sat/Schedule/FromTable.antt =====
-- Scheduling from the pass table, in the build of app/src/sat_board.c without pass prediction.
use hubble_reference_thingy.Common.{
  ℕ, zero, suc, ◌+◌, ◌-◌, ◌*◌, ◌/◌, ◌^◌, ◌≤◌, ◌<◌, ◌≡◌, refl, sym, ap, ◌∙◌, true, false, not,
  Option, some, List, [], ◌∷◌, ◌++◌, ltb, leb, Bool-cases, List-cases, get_or, inl, inr, ltb→lt,
  ltb-false→le, arith,
}
use hubble_reference_thingy.Common.Int.{ℤ, pos, negsuc}
use hubble_reference_thingy.Config.{Config}
use hubble_reference_thingy.App.{
  AppEnv, AppWorld, Call, Pass, Sat, u32, u64, sat_timer, k_timer_start, hubble_time_get,
}
use hubble_reference_thingy.Sat.Passes.{pass_at, no_pass, next_in_table}
use hubble_reference_thingy.Sat.Queue.{drop_started}
use hubble_reference_thingy.Sat.Table.{IsTable, pending, window, is_empty}
use hubble_reference_thingy.Sat.Search.{pending-nil, next_in_table_refines}
use hubble_reference_thingy.Sat.Schedule.{
  ms_per_s, schedule_from_table, sat_schedule_next_transmission,
}

-- every timestamp fits the uint32_t that holds it
abbrev pub AreWords : List Pass → Type 0
AreWords [] = Unit {0}
AreWords (p ∷ ps) = (p.timestamp < 2 ^ 32) × AreWords ps

pub drop_started-AreWords :
    (now_s : ℕ) (ps : List Pass) → AreWords ps → AreWords (drop_started now_s ps)
unfolding drop_started
drop_started-AreWords now_s [] h = tt
drop_started-AreWords now_s (p ∷ ps) h = ground (arith, drop_started-AreWords now_s ps h.1)

drop_started-later :
    (now_s : ℕ) (ps : List Pass) {p : Pass} {qs : List Pass}
    → drop_started now_s ps ≡ p ∷ qs
    → now_s < p.timestamp
unfolding drop_started
drop_started-later now_s [] h = ground arith
drop_started-later now_s (p ∷ ps) {p = q} h = elim (Bool-cases (leb p.timestamp now_s)) [
  | inl started ↦ drop_started-later now_s ps (rw started at h)
  | inr later ↦ ground arith
]

-- The result and the calls for a queue of future passes: the first one's begin, counted from now,
-- is the timer's first expiry.
abbrev pub outcome : ℕ → List Pass → Option ℤ × List Call
outcome now_s [] = (some (negsuc 0), [])
outcome now_s (p ∷ ps) = (some (pos 0), k_timer_start sat_timer (p.timestamp - now_s) 0 ∷ [])

window-head :
    (ps : List Pass) (i n : ℕ) {p : Pass} {qs : List Pass}
    → window ps i n ≡ p ∷ qs
    → get_or ps i no_pass ≡ p
window-head ps i zero h = cc
window-head ps i (suc n) h = cc

schedule_lem :
    (env : AppEnv) (now_ms : ℕ) (w : AppWorld)
    → IsTable w.state.sat
    → AreWords (pending w.state.sat)
    → let (r, w') = schedule_from_table env now_ms w in
      let future = drop_started (now_ms / ms_per_s) (pending w.state.sat) in
      (pending w'.state.sat ≡ future)
      × (r ≡ (outcome (now_ms / ms_per_s) future).0)
      × (w'.trace ≡ (outcome (now_ms / ms_per_s) future).1 ++ w.trace)
      × IsTable w'.state.sat
unfolding schedule_from_table
schedule_lem env now_ms w v words =
    let now_s = now_ms / ms_per_s in
    let r = next_in_table now_s w.state.sat in
    let k = next_in_table_refines now_s v in
    elim (List-cases (pending r.1)) [
      | inl e ↦
          let none_left : r.0 ≡ false = k.found ∙ ap (λ l. not (is_empty l)) e in
          rw none_left (rw (← k.queue) (rw e (refl, refl, refl, k.table)))
      | inr (p, ps, e) ↦
          let some_left : r.0 ≡ true = k.found ∙ ap (λ l. not (is_empty l)) e in
          rw some_left (
            rw (← k.queue) (
              rw e (
                refl,
                refl,
                ap (λ t. k_timer_start sat_timer t 0 ∷ w.trace) (armed r.1 p ps e (k.queue)),
                k.table,
              )))
    ]
  where
    armed :
        (s' : Sat) (p : Pass) (ps : List Pass)
        → pending s' ≡ p ∷ ps
        → pending s' ≡ drop_started (now_ms / ms_per_s) (pending w.state.sat)
        → u32 (u64 ((pass_at s' s'.idx).timestamp + 2 ^ 64 - now_ms / ms_per_s))
          ≡ p.timestamp - now_ms / ms_per_s
    armed s' p ps e q =
        let head : pass_at s' s'.idx ≡ p = window-head s'.passes s'.idx (s'.count - s'.idx) e in
        let d : drop_started (now_ms / ms_per_s) (pending w.state.sat) ≡ p ∷ ps = sym q ∙ e in
        let later = drop_started-later (now_ms / ms_per_s) (pending w.state.sat) d in
        let fits : AreWords (p ∷ ps) =
          rw d at (drop_started-AreWords (now_ms / ms_per_s) (pending w.state.sat) words) in
        rw head (let f = fits.0 in omega arith)

-- In the build without pass prediction, scheduling on a well-formed table whose timestamps fit 32
-- bits reads the clock once, drops from the table's queue every pass that began by this second, and
-- then: with no pass left it returns -1 and arms nothing; else it returns 0 and arms the timer,
-- once, with the seconds up to the begin of the first pass left. The table stays well-formed.
pub sat_schedule_next_transmission_arms :
    (c : Config) (env : AppEnv) (fuel : ℕ) (w : AppWorld)
    → c.pass_prediction ≡ false
    → IsTable w.state.sat
    → AreWords (pending w.state.sat)
    → let (r, w') = sat_schedule_next_transmission c env fuel w in
      let now_s = env.val w.trace hubble_time_get / ms_per_s in
      let future = drop_started now_s (pending w.state.sat) in
      (pending w'.state.sat ≡ future)
      × (r ≡ (outcome now_s future).0)
      × (w'.trace ≡ (outcome now_s future).1 ++ (hubble_time_get ∷ w.trace))
      × IsTable w'.state.sat
unfolding sat_schedule_next_transmission
sat_schedule_next_transmission_arms c env fuel w off v words = rw off (
    schedule_lem env (env.val w.trace hubble_time_get)
      (record w { trace = hubble_time_get ∷ w.trace }) v words)

pub pending-cons :
    (s : Sat) → s.idx < s.count → (qs : List Pass) × (pending s ≡ pass_at s s.idx ∷ qs)
pending-cons s h =
    let e : s.count - s.idx ≡ suc (s.count - s.idx - 1) = omega arith in
    (window s.passes (s.idx + 1) (s.count - s.idx - 1), ap (window s.passes s.idx) e)

-- A search that stays where it is has stopped at a pass that is still to come.
stays_later :
    (now_s : ℕ) {s : Sat}
    → IsTable s
    → s.idx < s.count
    → (next_in_table now_s s).1.idx ≡ s.idx
    → now_s < (pass_at s s.idx).timestamp
stays_later now_s {s} v h same =
    let k = next_in_table_refines now_s v in
    let unmoved : (next_in_table now_s s).1 ≡ s = k.same ∙ ap (λ i. record s { idx = i }) same in
    let (qs, e) = pending-cons s h in
    drop_started-later now_s (pending s) (sym k.queue ∙ ap pending unmoved ∙ e)

started_advances :
    (now_s : ℕ) {s : Sat}
    → IsTable s
    → s.idx < s.count
    → (pass_at s s.idx).timestamp ≤ now_s
    → s.idx < (next_in_table now_s s).1.idx
started_advances now_s {s} v h started =
    let k = next_in_table_refines now_s v in
    elim (Bool-cases (ltb s.idx (next_in_table now_s s).1.idx)) [
      | inl ahead ↦ ltb→lt _ _ ahead
      | inr stays ↦
          let back : (next_in_table now_s s).1.idx ≤ s.idx = ltb-false→le s.idx _ stays in
          let ahead : s.idx ≤ (next_in_table now_s s).1.idx = k.ahead in
          let later = stays_later now_s v h (omega arith) in absurd (omega arith)
    ]

pub found-idx-lt :
    (now_s : ℕ) {s : Sat}
    → IsTable s
    → (next_in_table now_s s).0 ≡ true
    → (next_in_table now_s s).1.idx < (next_in_table now_s s).1.count
found-idx-lt now_s {s} v found =
    let k = next_in_table_refines now_s v in
    let s' = (next_in_table now_s s).1 in
    elim (Bool-cases (ltb s'.idx s'.count)) [
      | inl lt ↦ ltb→lt _ _ lt
      | inr ge ↦
          let gone = pending-nil s' (ltb-false→le s'.idx _ ge) in
          let not_found : (next_in_table now_s s).0 ≡ false =
            k.found ∙ ap (λ l. not (is_empty l)) gone in
          cc
    ]

-- A pass is scheduled at most once: when the search in a well-formed table stops at an entry, and
-- the next search runs no earlier than that entry's timer fires, it goes on to a later index.
pub next_in_table_no_repeat :
    (now_ms later_ms : ℕ) (s s' : Sat)
    → IsTable s
    → next_in_table (now_ms / ms_per_s) s ≡ (true, s')
    → now_ms + ((pass_at s' s'.idx).timestamp - now_ms / ms_per_s) * ms_per_s ≤ later_ms
    → s'.idx < (next_in_table (later_ms / ms_per_s) s').1.idx
next_in_table_no_repeat now_ms later_ms s s' v search after =
    let k = next_in_table_refines (now_ms / ms_per_s) v in
    let e : (next_in_table (now_ms / ms_per_s) s).1 ≡ s' = ap (λ r. r.1) search in
    let found = found-idx-lt (now_ms / ms_per_s) v (ap (λ r. r.0) search) in
    started_advances (later_ms / ms_per_s) (rw e at k.table) (rw e at found) (omega arith)
