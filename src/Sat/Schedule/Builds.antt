-- ===== src/Sat/Schedule/Builds.antt =====
-- The two builds of sat_schedule_next_transmission (app/src/sat_board.c) on the same passes.
use hubble_reference_thingy.Common.{
  ℕ, ◌-◌, ◌*◌, ◌/◌, ◌%◌, ◌^◌, ◌<◌, ◌≡◌, refl, ap, ◌∙◌, true, false, Option, none, some, List, [],
  ◌∷◌, ◌++◌, map, length, leb, ◌==◌, if◌then◌else◌, inl, inr, Bool-cases, leb→le, arith,
}
use hubble_reference_thingy.Common.Int.{ℤ, pos, negsuc}
use hubble_reference_thingy.Config.{Config}
use hubble_reference_thingy.App.{AppEnv, AppWorld, Pass, PassInfo, u32, hubble_time_get}
use hubble_reference_thingy.Sat.Queue.{drop_started}
use hubble_reference_thingy.Sat.Table.{IsTable, pending}
use hubble_reference_thingy.Sat.Schedule.{ms_per_s, sat_schedule_next_transmission}
use hubble_reference_thingy.Sat.Schedule.FromTable.{
  AreWords, drop_started-AreWords, outcome, sat_schedule_next_transmission_arms,
}
use hubble_reference_thingy.Sat.Schedule.Earliest.{
  next_to_come, next_to_come-started, next_to_come-later, AreOrdered, Predicts, starts, Chooses,
  sat_schedule_next_transmission_earliest,
}

-- a pass of the table, as the SDK's search would give it
abbrev pub in_ms : Pass → PassInfo
in_ms p = record { start = p.timestamp * ms_per_s; duration = p.duration * ms_per_s }

abbrev first_in_ms : List Pass → Option PassInfo
first_in_ms [] = none
first_in_ms (p ∷ ps) = some (in_ms p)

-- The search by milliseconds and the one by seconds choose alike.
next_to_come-in_ms :
    (now_ms : ℕ) (ps : List Pass)
    → next_to_come now_ms (map in_ms ps) ≡ first_in_ms (drop_started (now_ms / ms_per_s) ps)
unfolding drop_started
next_to_come-in_ms now_ms [] = refl
next_to_come-in_ms now_ms (p ∷ ps) = elim (Bool-cases (leb p.timestamp (now_ms / ms_per_s))) [
  | inl started ↦
      let le = leb→le _ _ started in
      rw started (
        next_to_come-started now_ms (in_ms p) (map in_ms ps) (omega arith)
        ∙ next_to_come-in_ms now_ms ps)
  | inr later ↦
      let lt : now_ms / ms_per_s < p.timestamp = ground arith in
      rw later (next_to_come-later now_ms (in_ms p) (map in_ms ps) (omega arith))
]

-- how much sooner the timer of the build with pass prediction fires, in seconds
abbrev pub lead : ℕ → ℕ
lead now_ms = if now_ms % ms_per_s == 0 then 0 else 1

-- What the two builds do, from `w` and `w'`, where the table's build leaves the passes `ps` pending.
abbrev pub Agree :
    ℕ → List Pass → AppWorld → AppWorld → Option ℤ × AppWorld → Option ℤ × AppWorld → Type 0
Agree now_ms [] w w' (ret, v) (ret', v') =
    (ret ≡ some (negsuc 0))
    × (ret' ≡ some (negsuc 0))
    × (starts v.trace ≡ starts w.trace)
    × (starts v'.trace ≡ starts w'.trace)
Agree now_ms (p ∷ ps) w w' (ret, v) (ret', v') =
    let timeout = p.timestamp - now_ms / ms_per_s in
    (ret ≡ some (pos 0))
    × (ret' ≡ some (pos 0))
    × (v.state.sat.next_pass ≡ in_ms p)
    × (starts v.trace ≡ (timeout - lead now_ms) ∷ starts w.trace)
    × (starts v'.trace ≡ timeout ∷ starts w'.trace)

timeout-lead :
    (now_ms timestamp : ℕ)
    → timestamp < 2 ^ 32
    → u32 ((timestamp * ms_per_s - now_ms) / ms_per_s) ≡ timestamp - now_ms / ms_per_s - lead now_ms
timeout-lead now_ms timestamp h = ground arith

agree :
    (now_ms : ℕ) (future : List Pass) (w w' : AppWorld) (r r' : Option ℤ × AppWorld)
    → AreWords future
    → Chooses now_ms (first_in_ms future) w r
    → r'.0 ≡ (outcome (now_ms / ms_per_s) future).0
    → r'.1.trace ≡ (outcome (now_ms / ms_per_s) future).1 ++ (hubble_time_get ∷ w'.trace)
    → Agree now_ms future w w' r r'
agree now_ms [] w w' r r' words h e tr = (h.0, e, h.1, ap starts tr)
agree now_ms (p ∷ ps) w w' r r' words h e tr = (
  h.0,
  e,
  h.1,
  h.2 ∙ ap (λ s. s ∷ starts w.trace) (timeout-lead now_ms p.timestamp words.0),
  ap starts tr,
)

-- Where both builds know the same passes, whole seconds that do not overlap and are in order, and read
-- the same time, they choose the same pass, or find none alike: the result is the same, and where it
-- is 0, each starts its timer once, the one with pass prediction a second sooner unless the time is a
-- whole second. The table is well-formed with timestamps of 32 bits, the SDK's search is taken to find
-- the first pass that ends after its time, the clock to fit 64 bits; the fuel is more than the number
-- of passes.
pub sat_schedule_next_transmission_same_pass :
    (c c' : Config) (env env' : AppEnv) (fuel begun : ℕ) (w w' : AppWorld)
    → c.pass_prediction ≡ true
    → c'.pass_prediction ≡ false
    → IsTable w'.state.sat
    → AreWords (pending w'.state.sat)
    → Predicts env w.state.sat.lat w.state.sat.lon (map in_ms (pending w'.state.sat))
    → AreOrdered begun (map in_ms (pending w'.state.sat))
    → length (map in_ms (pending w'.state.sat)) < fuel
    → let now_ms = env.val w.trace hubble_time_get in
      now_ms < 2 ^ 64
      → env'.val w'.trace hubble_time_get ≡ now_ms
      → let r = sat_schedule_next_transmission c env fuel w in
        let r' = sat_schedule_next_transmission c' env' fuel w' in
        Agree now_ms (pending r'.1.state.sat) w w' r r'
sat_schedule_next_transmission_same_pass c c' env env' fuel begun w w' on off v words k o enough n
      same =
    let now_ms = env.val w.trace hubble_time_get in
    let r = sat_schedule_next_transmission c env fuel w in
    let r' = sat_schedule_next_transmission c' env' fuel w' in
    let choice = sat_schedule_next_transmission_earliest c env fuel begun _ w on k o n enough in
    let future = drop_started (now_ms / ms_per_s) (pending w'.state.sat) in
    let table = rw same at (sat_schedule_next_transmission_arms c' env' fuel w' off v words) in
    rw table.0 (
      agree now_ms future w w' r r'
        (drop_started-AreWords (now_ms / ms_per_s) (pending w'.state.sat) words)
        (rw (next_to_come-in_ms now_ms (pending w'.state.sat)) at choice) table.1 table.2)
