-- ===== src/Main/Rounds.antt =====
-- The endless loop of main (app/src/main.c) in the build without pass prediction: one round after the
-- other, each for the next pass of the table.
use hubble_reference_thingy.Common.{
  ℕ, zero, suc, ◌+◌, ◌-◌, ◌*◌, ◌^◌, ◌/◌, ◌≤◌, ◌<◌, ◌≡◌, refl, ap, ◌∙◌, Bool, true, false, ◌&&◌,
  List, [], ◌∷◌, ◌++◌, append_assoc, length, leb, le→leb, lt→leb-false, arith,
}
use hubble_reference_thingy.Common.Int.{pos}
use hubble_reference_thingy.Config.{Config}
use hubble_reference_thingy.App.{
  App, AppEnv, AppWorld, Call, Pass, Sat, u32, u64, sat_timer, k_timer_start, hubble_time_get,
}
use hubble_reference_thingy.Sat.Passes.{pass_at}
use hubble_reference_thingy.Ble.Ephemeris.{AreEntries}
use hubble_reference_thingy.Sat.Queue.{drop_started}
use hubble_reference_thingy.Sat.Table.{IsTable, pending}
use hubble_reference_thingy.Sat.Schedule.{ms_per_s, sat_schedule_next_transmission}
use hubble_reference_thingy.Sat.Schedule.Finds.{sat_schedule-Finds}
use hubble_reference_thingy.Sat.Window.{sends, IsClock, OthersKeepInterval}
use hubble_reference_thingy.Main.Transmits.{IsPrompt, IsServing-pending}
use hubble_reference_thingy.Main.Keeps.{round_after-keeps}
use hubble_reference_thingy.Main.Serves.{
  OthersKeepPass, Succeeds, main_round_ends, main_round_serves,
}
use hubble_reference_thingy.Main.Waits.{hangs, WaitsReturn, main_round-hangs}
use hubble_reference_thingy.Main.Loop.{main_round}

-- a number of rounds of `while (true)`; the result is false if a loop in one ran out of fuel
unfoldable pub rounds : Config → AppEnv → ℕ → ℕ → AppWorld → Bool × AppWorld
rounds c env fuel zero w = (true, w)
rounds c env fuel (suc n) w =
    let (complete, w') = main_round c env fuel w in
    let (rest, w'') = rounds c env fuel n w' in (complete && rest, w'')

-- A well-formed table, whose pending passes begin with `ps`, and an interval of `q` seconds.
pub record HasPasses (ps : List Pass) (q : ℕ) (s : Sat) : Type 0 where
  pub table : IsTable s
  pub more : List Pass
  pub waiting : pending s ≡ ps ++ more
  pub interval : s.retransmission_s ≡ q

-- The threads that run while a round blocks register passes at most.
pub record OthersKeepPasses (env : AppEnv) : Type 0 where
  pub keep :
      (tr : List Call) (k : Call) (a : App) (ps : List Pass) (q : ℕ)
      → HasPasses ps q a.sat
      → HasPasses ps q (env.others tr k a).sat

-- Rounds on time: each starts when the pass before has begun, and its own has not.
abbrev pub AreOnTime : Config → AppEnv → ℕ → ℕ → List Pass → AppWorld → Type 0
AreOnTime c env fuel begun [] w = Unit {0}
AreOnTime c env fuel begun (p ∷ ps) w =
    let now_s = env.val w.trace hubble_time_get / ms_per_s in
    (begun ≤ now_s)
    × (now_s < p.timestamp)
    × AreOnTime c env fuel p.timestamp ps (main_round c env fuel w).1

abbrev pub AreShorter : ℕ → List Pass → Type 0
AreShorter n [] = Unit {0}
AreShorter n (p ∷ ps) = (p.duration < n) × AreShorter n ps

-- A round that started in `w` for the pass `p`: at `now_s` its scheduling started the timer, once, with the
-- seconds up to the begin of `p`; no loop of it ran out of fuel and no wait without a timeout lasted for ever;
-- it sent at least one packet and at most `n`, and `p` is still the table's current pass after it.
pub record ServesPass (c : Config) (env : AppEnv) (fuel n : ℕ) (p : Pass) (w : AppWorld)
    : Type 0 where
  pub armed :
      (sat_schedule_next_transmission c env fuel w).1.trace
      ≡ k_timer_start sat_timer (p.timestamp - env.val w.trace hubble_time_get / ms_per_s) 0
        ∷ hubble_time_get
        ∷ w.trace
  pub complete : (main_round c env fuel w).0 ≡ true
  pub returned : hangs env (main_round c env fuel w).1.trace ≡ hangs env w.trace
  pub current : let s = (main_round c env fuel w).1.state.sat in pass_at s s.idx ≡ p
  pub at_least : sends w.trace < sends (main_round c env fuel w).1.trace
  pub at_most : sends (main_round c env fuel w).1.trace ≤ sends w.trace + n

-- The rounds from `w` on serve the passes, one each and in this order.
abbrev pub ServePasses : Config → AppEnv → ℕ → ℕ → List Pass → AppWorld → Type 0
ServePasses c env fuel n [] w = Unit {0}
ServePasses c env fuel n (p ∷ ps) w =
    ServesPass c env fuel n p w × ServePasses c env fuel n ps (main_round c env fuel w).1

seconds_left : (t now_s : ℕ) → t < 2 ^ 32 → now_s < t → u32 (u64 (t + 2 ^ 64 - now_s)) ≡ t - now_s
seconds_left t now_s h lt = omega arith

abbrev pub HaveBegun : ℕ → List Pass → Type 0
HaveBegun t [] = Unit {0}
HaveBegun t (p ∷ ps) = (p.timestamp ≤ t) × HaveBegun t ps

drop_started-append :
    (now_s begun : ℕ) (old : List Pass) (p : Pass) (rest : List Pass)
    → HaveBegun begun old
    → begun ≤ now_s
    → now_s < p.timestamp
    → drop_started now_s (old ++ p ∷ rest) ≡ p ∷ rest
unfolding drop_started
drop_started-append now_s begun [] p rest h le lt = rw (lt→leb-false _ _ lt) refl
drop_started-append now_s begun (o ∷ old) p rest h le lt =
    let past : leb o.timestamp now_s ≡ true = le→leb _ _ (omega (arith, h.0)) in
    rw past (drop_started-append now_s begun old p rest h.1 le lt)

module _ (c : Config) (env : AppEnv) (off : c.pass_prediction ≡ false)
    (others : OthersKeepPasses env) where
  -- A round that finds the pass `p` leaves it the first one of the table.
  main_round-HasPasses :
      (p : Pass) (ps rest : List Pass) (q fuel : ℕ) (w : AppWorld)
      → IsTable w.state.sat
      → w.state.sat.retransmission_s ≡ q
      → drop_started (env.val w.trace hubble_time_get / ms_per_s) (pending w.state.sat)
        ≡ p ∷ (ps ++ rest)
      → HasPasses (p ∷ ps) q (main_round c env fuel w).1.state.sat
  unfolding main_round
  main_round-HasPasses p ps rest q fuel w v i found =
      let k = sat_schedule-Finds c env fuel w off v found in
      let scheduled = (sat_schedule_next_transmission c env fuel w).1 in
      let has : HasPasses (p ∷ ps) q scheduled.state.sat = record {
        table = k.table;
        more = rest;
        waiting = k.left;
        interval = k.interval ∙ i;
      } in
      rw k.result (
        round_after-keeps c env (HasPasses (p ∷ ps) q) (λ tr k a. others.keep tr k a (p ∷ ps) q)
          (λ b s h. record {
            table = record {
              array = h.table.array;
              idx_in = h.table.idx_in;
              count_in = h.table.count_in;
            };
            more = h.more;
            waiting = h.waiting;
            interval = h.interval;
          })
          fuel (pos 0) scheduled has)

  module _ (clock : IsClock env) (on_time : IsPrompt env) (keep : OthersKeepInterval env)
      (current : OthersKeepPass env) (ok : Succeeds env) (waits : WaitsReturn env) where
    -- `old` are the passes that have begun.
    pub rounds_serve :
        (old ps : List Pass) (q fuel n begun : ℕ) (w : AppWorld)
        → HasPasses (old ++ ps) q w.state.sat
        → HaveBegun begun old
        → AreOnTime c env fuel begun ps w
        → AreEntries ps
        → AreShorter (n * q) ps
        → n < fuel
        → ((rounds c env fuel (length ps) w).0 ≡ true) × ServePasses c env fuel n ps w
    unfolding rounds
    rounds_serve old [] q fuel n begun w h past t fit short enough = (refl, tt)
    rounds_serve old (p ∷ ps) q fuel n begun w h past (after, before, later) (word, _, fit)
          (short, rest) enough =
        let now_s = env.val w.trace hubble_time_get / ms_per_s in
        let found : drop_started now_s (pending w.state.sat) ≡ p ∷ (ps ++ h.more) =
          ap (drop_started now_s) (h.waiting ∙ append_assoc old (p ∷ ps) h.more)
          ∙ drop_started-append now_s begun old p (ps ++ h.more) past after before in
        let longer : p.duration < n * w.state.sat.retransmission_s = rw h.interval short in
        let (complete, sent) =
          main_round_serves c env off clock on_time keep current p (ps ++ h.more) fuel n w ok
            h.table found longer enough in
        let (_, few) =
          main_round_ends c env off clock on_time keep current p (ps ++ h.more) fuel n w h.table
            found longer enough in
        let scheduled = sat_schedule-Finds c env fuel w off h.table found in
        let next = main_round-HasPasses p ps h.more q fuel w h.table h.interval found in
        let serves : ServesPass c env fuel n p w = record {
          armed =
              scheduled.armed
              ∙ ap (λ t. k_timer_start sat_timer t 0 ∷ hubble_time_get ∷ w.trace)
                  (seconds_left p.timestamp now_s word before);
          complete = complete;
          returned = main_round-hangs c env waits fuel w scheduled.result;
          current =
              (IsServing-pending (main_round c env fuel w).1.state.sat p (ps ++ next.more)
                next.waiting).current;
          at_least = sent;
          at_most = few;
        } in
        let (all, served) =
          rounds_serve (p ∷ []) ps q fuel n p.timestamp (main_round c env fuel w).1 next
            (omega arith, tt) later fit rest enough in
        (rw (complete, all) refl, (serves, served))
