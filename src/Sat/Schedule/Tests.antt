-- ===== src/Sat/Schedule/Tests.antt =====
-- The theorems on scheduling with pass prediction (app/src/sat_board.c) at concrete inputs.
use hubble_reference_thingy.Common.{
  ℕ, ◌+◌, ◌<◌, refl, ◌↔◌, Option, none, some, List, [], ◌∷◌, map, arith,
}
use hubble_reference_thingy.Common.Int.{ℤ, pos, negsuc}
use hubble_reference_thingy.App.{
  AppEnv, AppWorld, Call, PassInfo, k_sleep, hubble_time_get, hubble_sat_next_pass_get,
}
use hubble_reference_thingy.App.Examples.{
  table_config, predicted_config, answer, number, bytes, slept, now_ms, calm, fresh, started,
}
use hubble_reference_thingy.Sat.Table.{pending}
use hubble_reference_thingy.Sat.Tests.{two_passes, with_passes, two_passes-IsTable}
use hubble_reference_thingy.Sat.Schedule.{find_pass, sat_schedule_next_transmission}
use hubble_reference_thingy.Sat.Schedule.Earliest.{
  first_ending_after, next_to_come, AreOrdered, IsAnswer, Predicts, Chooses,
  sat_schedule_next_transmission_earliest,
}
use hubble_reference_thingy.Sat.Schedule.Repeat.{ArmsAgain, sat_schedule_next_transmission_repeats}
use hubble_reference_thingy.Sat.Schedule.Builds.{
  in_ms, Agree, sat_schedule_next_transmission_same_pass,
}

-- surroundings in which the SDK knows a list of passes, and the clock goes by what was slept
abbrev pub found_ret : Option PassInfo → ℤ
found_ret none = negsuc 0
found_ret (some p) = pos 0

abbrev pub found_out : Option PassInfo → List ℕ
found_out none = []
found_out (some p) = p.start ∷ p.duration ∷ []

abbrev pub orbit_ret : List PassInfo → List Call → Call → ℤ
orbit_ret passes tr (hubble_sat_next_pass_get t _ _) = found_ret (first_ending_after t passes)
orbit_ret passes tr k = answer tr k

abbrev pub orbit_out : List PassInfo → List Call → Call → List ℕ
orbit_out passes tr (hubble_sat_next_pass_get t _ _) = found_out (first_ending_after t passes)
orbit_out passes tr k = bytes tr k

abbrev pub orbit_val : List Call → Call → ℕ
orbit_val tr hubble_time_get = now_ms + slept tr
orbit_val tr k = number tr k

abbrev pub orbit : List PassInfo → AppEnv
orbit passes = record {
  ret = orbit_ret passes;
  val = orbit_val;
  out = orbit_out passes;
  others = λ tr k a. a;
}

found-IsAnswer : (o : Option PassInfo) → IsAnswer o (found_ret o) (found_out o)
found-IsAnswer none = refl
found-IsAnswer (some p) = (refl, refl)

orbit-Predicts :
    (passes : List PassInfo) (lat lon : List ℕ) → Predicts (orbit passes) lat lon passes
orbit-Predicts passes lat lon = record {
  answers = λ tr t. found-IsAnswer (first_ending_after t passes);
}

-- a pass that is in progress, and one 500.4 seconds later
abbrev two_predicted : List PassInfo
two_predicted =
    record { start = 999999999000; duration = 5000 }
    ∷ record { start = 1000000500400; duration = 12000 }
    ∷ []

two_predicted-AreOrdered : AreOrdered 0 two_predicted
two_predicted-AreOrdered =
    (omega arith, omega arith, omega arith, (omega arith, omega arith, omega arith, tt))

sat_schedule_next_transmission_earliest_example :
    Chooses now_ms
      (next_to_come now_ms two_predicted)
      started
      (sat_schedule_next_transmission predicted_config (orbit two_predicted) 3 started)
sat_schedule_next_transmission_earliest_example =
    sat_schedule_next_transmission_earliest predicted_config (orbit two_predicted) 3 0 two_predicted
      started refl (orbit-Predicts two_predicted fresh.sat.lat fresh.sat.lon)
      two_predicted-AreOrdered (omega arith) (omega arith)

-- when the timer has fired, 0.4 seconds before the pass
abbrev fired : AppWorld
fired = record { state = fresh; trace = k_sleep 500 ∷ [] }

sat_schedule_next_transmission_repeats_example :
    let r = sat_schedule_next_transmission predicted_config (orbit two_predicted) 3 started in
    let p = r.1.state.sat.next_pass in
    ArmsAgain p fired
      (sat_schedule_next_transmission predicted_config (orbit two_predicted) 3 fired)
    ↔ (1000000500000 < p.start)
unfolding sat_schedule_next_transmission find_pass
sat_schedule_next_transmission_repeats_example =
    sat_schedule_next_transmission_repeats predicted_config (orbit two_predicted) 3 0 two_predicted
      started fired refl (orbit-Predicts two_predicted fresh.sat.lat fresh.sat.lon)
      (orbit-Predicts two_predicted fresh.sat.lat fresh.sat.lon) two_predicted-AreOrdered
      (omega arith) (omega arith) (omega arith) refl (omega arith)

-- the passes of the table, known to the SDK
abbrev known : List PassInfo
known = map in_ms (pending two_passes)

sat_schedule_next_transmission_same_pass_example :
    let r = sat_schedule_next_transmission predicted_config (orbit known) 3 started in
    let r' = sat_schedule_next_transmission table_config calm 3 with_passes in
    Agree now_ms (pending r'.1.state.sat) started with_passes r r'
sat_schedule_next_transmission_same_pass_example =
    sat_schedule_next_transmission_same_pass predicted_config table_config (orbit known) calm 3 0
      started with_passes refl refl two_passes-IsTable (omega arith, (omega arith, tt))
      (orbit-Predicts known fresh.sat.lat fresh.sat.lon)
      (omega arith, omega arith, omega arith, (omega arith, omega arith, omega arith, tt))
      (omega arith) (omega arith) refl
