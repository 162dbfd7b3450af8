-- ===== src/Main/Serves.antt =====
-- A round of main (app/src/main.c) in the build without pass prediction: it transmits in the window of
-- the pass that it has waited for, and its loop ends.
use hubble_reference_thingy.Common.{
  ℕ, ◌+◌, ◌*◌, ◌/◌, ◌≤◌, ◌<◌, ◌≡◌, refl, Bool, true, false, some, List, ◌∷◌, if◌then◌else◌, arith,
}
use hubble_reference_thingy.Common.Int.{ℤ, pos, is_zero, is_neg}
use hubble_reference_thingy.Config.{Config}
use hubble_reference_thingy.SatIpc.{Message}
use hubble_reference_thingy.App.{
  App, AppEnv, AppWorld, Call, Pass, hubble_time_get, hubble_sat_packet_get,
  ipc_service_open_instance, ipc_service_register_endpoint, ipc_service_send, k_sem_take, sat_sem,
  seconds,
}
use hubble_reference_thingy.Ipc.{ipc_send, ipc_timeout_s}
use hubble_reference_thingy.Ble.Switch.{ble_enable, ble_disable}
use hubble_reference_thingy.Sat.Schedule.{ms_per_s}
use hubble_reference_thingy.Sat.Flag.{packet_result}
use hubble_reference_thingy.Sat.Transmit.{sat_transmit}
use hubble_reference_thingy.Sat.Window.{sends, IsClock, OthersKeepInterval}
use hubble_reference_thingy.Common.Effects.{block}
use hubble_reference_thingy.App.{timer_sem, forever, radio_mutex, k_mutex_lock}
use hubble_reference_thingy.Sat.Queue.{drop_started}
use hubble_reference_thingy.Sat.Table.{IsTable, pending}
use hubble_reference_thingy.Sat.Schedule.Finds.{sat_schedule-Finds}
use hubble_reference_thingy.Sat.Schedule.{sat_schedule_next_transmission}
use hubble_reference_thingy.Main.Network.{sat_enable}
use hubble_reference_thingy.Main.Loop.{satellite_session, end_round, round_after, main_round}
use hubble_reference_thingy.Main.Quiet.{
  ble_enable-sends, ble_disable-sends, sat_enable-sends, sat_disable-sends, ble_enable-keeps,
  ble_disable-keeps, sat_enable-keeps,
}
use hubble_reference_thingy.Main.Transmits.{
  IsServing, IsPrompt, IsServing-pending, sat_transmit-EndsIn,
}

-- The threads that run while a round blocks leave the current pass and the interval alone. They may
-- register passes.
pub record OthersKeepPass (env : AppEnv) : Type 0 where
  pub keep :
      (tr : List Call) (k : Call) (a : App) (p : Pass) (q : ℕ)
      → IsServing p q a.sat
      → IsServing p q (env.others tr k a).sat

-- A part of a round has ended, with its loop at its end, and sent between `m` and `n` times.
pub record Completes (m n : ℕ) (w : AppWorld) (r : Bool × AppWorld) : Type 0 where
  pub complete : r.0 ≡ true
  pub at_least : sends w.trace + m ≤ sends r.1.trace
  pub at_most : sends r.1.trace ≤ sends w.trace + n

-- the world in which the session of a round starts: Bluetooth is off, and the mutex taken
abbrev pub at_session : Config → AppEnv → AppWorld → AppWorld
at_session c env w =
    let on = (ble_enable c env false w).1 in
    let woken = (block env (k_sem_take timer_sem forever) on).1 in
    let idle = (ble_disable env false woken).1 in (block env (k_mutex_lock radio_mutex) idle).1

-- Whether the network core is there, and gives a packet.
abbrev can_send : Config → AppEnv → AppWorld → ℕ
can_send c env w =
    let (err, w') = sat_enable c env w in
    if is_neg err then 0 else if is_zero (packet_result c env w') then 1 else 0

-- The network core comes up and answers in time, and the SDK makes a packet.
pub record Succeeds (env : AppEnv) : Type 0 where
  pub opens : (tr : List Call) → is_neg (env.ret tr ipc_service_open_instance) ≡ false
  pub registers : (tr : List Call) → is_neg (env.ret tr ipc_service_register_endpoint) ≡ false
  pub posts : (tr : List Call) (m : Message) → is_neg (env.ret tr (ipc_service_send m)) ≡ false
  pub answers :
      (tr : List Call) → is_neg (env.ret tr (k_sem_take sat_sem (seconds ipc_timeout_s))) ≡ false
  pub packets :
      (tr : List Call) (payload : List ℕ) (len : ℕ)
      → is_zero (env.ret tr (hubble_sat_packet_get payload len)) ≡ true

sat_enable-Succeeds :
    (c : Config) (env : AppEnv)
    → Succeeds env
    → (w : AppWorld) → is_neg (sat_enable c env w).0 ≡ false
unfolding sat_enable ipc_send
sat_enable-Succeeds c env ok w = grind (arith, ok.opens, ok.registers, ok.posts, ok.answers)

can_send-Succeeds :
    (c : Config) (env : AppEnv) → Succeeds env → (w : AppWorld) → can_send c env w ≡ 1
can_send-Succeeds c env ok w = rw (sat_enable-Succeeds c env ok w, ok.packets _ _ _) refl

module _ (c : Config) (env : AppEnv) (off : c.pass_prediction ≡ false) (clock : IsClock env)
    (on_time : IsPrompt env) (keep : OthersKeepInterval env) (others : OthersKeepPass env) where
  satellite_session-Completes :
      (p : Pass) (q fuel n : ℕ) (w : AppWorld)
      → IsServing p q w.state.sat
      → p.duration < n * q
      → n < fuel
      → Completes (can_send c env w) n w (satellite_session c env fuel w)
  unfolding satellite_session
  satellite_session-Completes p q fuel n w s last enough =
      let on = sat_enable c env w in
      let serving = sat_enable-keeps c env (IsServing p q) (λ tr k a. others.keep tr k a p q) w s in
      let sent =
        sat_transmit-EndsIn c env off clock on_time keep p q fuel n on.1 serving last enough in
      ground (
        arith,
        sent,
        sat_enable-sends c env w,
        sat_disable-sends c env on.1,
        sat_disable-sends c env (sat_transmit c env fuel on.1).1,
      )

  round_after-Completes :
      (p : Pass) (q fuel n : ℕ) (ret : ℤ) (w : AppWorld)
      → IsServing p q w.state.sat
      → p.duration < n * q
      → n < fuel
      → let locked = at_session c env w in
        Completes (can_send c env locked) n w (round_after c env fuel (some ret) w)
  unfolding round_after end_round
  round_after-Completes p q fuel n ret w s last enough =
      let keeps = λ (tr : List Call) (k : Call) (a : App). others.keep tr k a p q in
      let on = (ble_enable c env false w).1 in
      let woken = (block env (k_sem_take timer_sem forever) on).1 in
      let idle = (ble_disable env false woken).1 in
      let serving = ble_enable-keeps c env (IsServing p q) keeps false w s in
      let awake = keeps on.trace (k_sem_take timer_sem forever) on.state serving in
      let quiet = ble_disable-keeps c env (IsServing p q) keeps false woken awake in
      let locked = keeps idle.trace (k_mutex_lock radio_mutex) idle.state quiet in
      ground (
        arith,
        satellite_session-Completes p q fuel n (at_session c env w) locked last enough,
        ble_enable-sends c env false w,
        ble_disable-sends c env false woken,
      )

  -- a round that has found the pass `p` by its search
  main_round-Completes :
      (p : Pass) (ps : List Pass) (fuel n : ℕ) (w : AppWorld)
      → IsTable w.state.sat
      → drop_started (env.val w.trace hubble_time_get / ms_per_s) (pending w.state.sat) ≡ p ∷ ps
      → p.duration < n * w.state.sat.retransmission_s
      → n < fuel
      → let scheduled = (sat_schedule_next_transmission c env fuel w).1 in
        Completes (can_send c env (at_session c env scheduled)) n w (main_round c env fuel w)
  unfolding main_round
  main_round-Completes p ps fuel n w v found last enough =
      let scheduled = (sat_schedule_next_transmission c env fuel w).1 in
      let k = sat_schedule-Finds c env fuel w off v found in
      let serving : IsServing p w.state.sat.retransmission_s scheduled.state.sat =
        rw k.interval at (IsServing-pending scheduled.state.sat p ps k.left) in
      let e = round_after-Completes p _ fuel n (pos 0) scheduled serving last enough in
      let same = k.quiet in
      rw k.result record {
        complete = e.complete;
        at_least = omega (arith, same, e.at_least);
        at_most = omega (arith, same, e.at_most);
      }

  -- No loop of such a round runs out of fuel, and it sends at most `n` packets.
  pub main_round_ends :
      (p : Pass) (ps : List Pass) (fuel n : ℕ) (w : AppWorld)
      → IsTable w.state.sat
      → drop_started (env.val w.trace hubble_time_get / ms_per_s) (pending w.state.sat) ≡ p ∷ ps
      → p.duration < n * w.state.sat.retransmission_s
      → n < fuel
      → let (complete, w') = main_round c env fuel w in
        (complete ≡ true) × (sends w'.trace ≤ sends w.trace + n)
  main_round_ends p ps fuel n w v found last enough =
      let e = main_round-Completes p ps fuel n w v found last enough in (e.complete, e.at_most)

  -- Where the network core and the SDK answer with success, the round sends at least one packet in the
  -- window of the pass that it has found, and comes to its end: under the conditions on the table, the
  -- clock, the other threads and the fuel of a round that ends.
  pub main_round_serves :
      (p : Pass) (ps : List Pass) (fuel n : ℕ) (w : AppWorld)
      → Succeeds env
      → IsTable w.state.sat
      → drop_started (env.val w.trace hubble_time_get / ms_per_s) (pending w.state.sat) ≡ p ∷ ps
      → p.duration < n * w.state.sat.retransmission_s
      → n < fuel
      → let (complete, w') = main_round c env fuel w in
        (complete ≡ true) × (sends w.trace < sends w'.trace)
  main_round_serves p ps fuel n w ok v found last enough =
      let e = main_round-Completes p ps fuel n w v found last enough in
      (e.complete, omega (arith, e.at_least, can_send-Succeeds c env ok _))
