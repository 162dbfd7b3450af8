-- ===== src/Sat/Schedule/Finds.antt =====
-- What scheduling from the pass table (app/src/sat_board.c) finds, and what it leaves alone.
use hubble_reference_thingy.Common.{
  ℕ, ◌+◌, ◌-◌, ◌/◌, ◌^◌, ◌≡◌, refl, ap, ◌∙◌, true, false, not, Option, some, List, ◌∷◌,
}
use hubble_reference_thingy.Common.Int.{ℤ, pos}
use hubble_reference_thingy.Config.{Config}
use hubble_reference_thingy.App.{
  AppEnv, AppWorld, Pass, u32, u64, sat_timer, k_timer_start, hubble_time_get,
}
use hubble_reference_thingy.Sat.Passes.{pass_at, next_in_table}
use hubble_reference_thingy.Sat.Queue.{drop_started}
use hubble_reference_thingy.Sat.Table.{IsTable, pending, is_empty}
use hubble_reference_thingy.Sat.Schedule.FromTable.{pending-cons, found-idx-lt}
use hubble_reference_thingy.Sat.Search.{next_in_table_refines}
use hubble_reference_thingy.Sat.Window.{sends}
use hubble_reference_thingy.Sat.Schedule.{
  ms_per_s, schedule_from_table, sat_schedule_next_transmission,
}

-- A scheduling at `now_s` has found the passes `p ∷ ps`, and starts the timer for the first.
pub record Finds (now_s : ℕ) (p : Pass) (ps : List Pass) (w : AppWorld) (r : Option ℤ × AppWorld)
    : Type 0 where
  pub result : r.0 ≡ some (pos 0)
  pub left : pending r.1.state.sat ≡ p ∷ ps
  pub current : pass_at r.1.state.sat r.1.state.sat.idx ≡ p
  pub armed :
      r.1.trace
      ≡ k_timer_start sat_timer (u32 (u64 (p.timestamp + 2 ^ 64 - now_s))) 0
        ∷ hubble_time_get
        ∷ w.trace
  pub table : IsTable r.1.state.sat
  pub interval : r.1.state.sat.retransmission_s ≡ w.state.sat.retransmission_s
  pub quiet : sends r.1.trace ≡ sends w.trace

pub sat_schedule-Finds :
    (c : Config) (env : AppEnv) (fuel : ℕ) (w : AppWorld) {p : Pass} {ps : List Pass}
    → c.pass_prediction ≡ false
    → IsTable w.state.sat
    → drop_started (env.val w.trace hubble_time_get / ms_per_s) (pending w.state.sat) ≡ p ∷ ps
    → Finds
        (env.val w.trace hubble_time_get / ms_per_s)
        p
        ps
        w
        (sat_schedule_next_transmission c env fuel w)
unfolding sat_schedule_next_transmission schedule_from_table
sat_schedule-Finds c env fuel w {p} {ps} off v found =
    let now_s = env.val w.trace hubble_time_get / ms_per_s in
    let r = next_in_table now_s w.state.sat in
    let k = next_in_table_refines now_s v in
    let left : pending r.1 ≡ p ∷ ps = k.queue ∙ found in
    let some_left : r.0 ≡ true = k.found ∙ ap (λ l. not (is_empty l)) left in
    let (qs, e) = pending-cons r.1 (found-idx-lt now_s v some_left) in
    let here : pass_at r.1 r.1.idx ≡ p = cc in
    rw (off, some_left)
      record {
        result = refl;
        left = left;
        current = here;
        armed =
            ap
              (λ (q : Pass).
                k_timer_start sat_timer (u32 (u64 (q.timestamp + 2 ^ 64 - now_s))) 0
                ∷ hubble_time_get
                ∷ w.trace)
              here;
        table = k.table;
        interval = ap (λ s. s.retransmission_s) k.same;
        quiet = refl;
      }
