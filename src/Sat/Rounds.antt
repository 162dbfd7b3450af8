-- ===== src/Sat/Rounds.antt =====
-- The searches of successive rounds of main (app/src/main.c) in the table of app/src/sat_board.c, which
-- is a `Source` of passes.
use hubble_reference_thingy.Common.{
  ℕ, ◌≡◌, refl, ◌∙◌, List, [], ◌∷◌, ◌++◌, Bool-cases, inl, inr, if◌then◌else◌,
}
use hubble_reference_thingy.App.{Sat, Pass}
use hubble_reference_thingy.Sat.Passes.{pass_at, next_in_table}
use hubble_reference_thingy.Sat.Table.{IsTable, pending, view}
use hubble_reference_thingy.Sat.Search.{next_in_table_refines}
use hubble_reference_thingy.Sat.Schedule.FromTable.{found-idx-lt, pending-cons}
use hubble_reference_thingy.Sat.Source.{
  Source, found_pass, scheduled, AreInTime, scheduled-in_time, queue_source, scheduled-pending,
}

abbrev pub table_source : Source
table_source = record {
  Carrier = (s : Sat) × IsTable s;
  pending = λ s. pending s.0;
  next = λ now_s s.
      let r = next_in_table now_s s.0 in (r.0, (r.1, (next_in_table_refines now_s s.1).table));
  pending-next = λ now_s s. (next_in_table_refines now_s s.1).queue;
  next_found = λ now_s s. (next_in_table_refines now_s s.1).found;
}

-- the passes at the index that the rounds' searches leave, where they find one
unfoldable pub waited_for : List ℕ → Sat → List Pass
waited_for [] s = []
waited_for (now_s ∷ times) s =
    let (found, s') = next_in_table now_s s in
    (if found then pass_at s' s'.idx ∷ [] else []) ++ waited_for times s'

found_pass-pass_at :
    (now_s : ℕ) {s : Sat} (v : IsTable s)
    → let (found, s') = next_in_table now_s s in
      found_pass found (pending s') ≡ (if found then pass_at s' s'.idx ∷ [] else [])
found_pass-pass_at now_s {s} v = elim (Bool-cases (next_in_table now_s s).0) [
  | inl found ↦
      let s' = (next_in_table now_s s).1 in
      let (qs, e) = pending-cons s' (found-idx-lt now_s v found) in rw (found, e) refl
  | inr nothing ↦ rw nothing refl
]

waited_for-scheduled :
    (times : List ℕ) (s : Sat) (v : IsTable s)
    → waited_for times s ≡ scheduled table_source times (s, v)
unfolding waited_for scheduled
waited_for-scheduled [] s v = refl
waited_for-scheduled (now_s ∷ times) s v =
    let k = next_in_table_refines now_s v in
    rw (found_pass-pass_at now_s v, waited_for-scheduled times (next_in_table now_s s).1 k.table)
      refl

-- On a well-formed pass table, rounds whose searches run in time wait for every pending pass
-- exactly once, in the order of registration: in time means that the first search runs before the
-- first pass begins, and each later one when the pass before has begun and the next one has not,
-- with as many searches as passes.
pub next_in_table_serves_each :
    (times : List ℕ) (s : Sat)
    → IsTable s
    → AreInTime 0 times (pending s)
    → waited_for times s ≡ pending s
next_in_table_serves_each times s v t =
    waited_for-scheduled times s v ∙ scheduled-in_time table_source times (s, v) t

-- Rounds on a well-formed pass table wait for what the searches of a queue with the same passes
-- pending find, whenever the searches run: also when one is late and passes are dropped unserved, or
-- early and a pass is waited for again.
pub next_in_table_serves_as_queue :
    (times : List ℕ) (s : Sat)
    → IsTable s
    → waited_for times s ≡ scheduled queue_source times (view s)
next_in_table_serves_as_queue times s v =
    waited_for-scheduled times s v
    ∙ scheduled-pending table_source queue_source times (s, v) (view s) refl
