-- ===== src/Main/Core.antt =====
-- What main of app/src/main.c makes of the network core: which stack it starts, and when it stops it.
use hubble_reference_thingy.Common.{
  ℕ, ◌≡◌, refl, Bool, true, false, Option, none, some, List, ◌∷◌, arith, if◌then◌else◌,
}
use hubble_reference_thingy.Common.Int.{ℤ, neg, is_zero, is_neg, ◌==ℤ◌}
use mathlib.Core.Bool.{false≢true}
use hubble_reference_thingy.Config.{Config}
use hubble_reference_thingy.App.{
  AppEnv, AppWorld, Call, radio_mutex, stack_mark, k_mutex_unlock, ipc_service_open_instance,
  ipc_service_deregister_endpoint, nrf53_cpunet_enable,
}
use hubble_reference_thingy.App.Stack.{core}
use hubble_reference_thingy.Sat.Core.{sat_transmit-core}
use hubble_reference_thingy.Main.Network.{ble_stack, sat_stack, sat_enable, sat_disable}
use hubble_reference_thingy.Main.Loop.{satellite_session, end_round, round_after, main_round}

module _ (c : Config) (env : AppEnv) where
  sat_enable-core :
      (w : AppWorld)
      → core (sat_enable c env w).1.trace ≡ record { mark = sat_stack; running = true }
  unfolding sat_enable
  sat_enable-core w = ground arith

  -- The network core is stopped exactly when `sat_disable` returns 0; on each failure it is left as
  -- it was, and the mark never changes.
  pub sat_disable-core :
      (w : AppWorld)
      → let (ret, w') = sat_disable env w in
        core w'.trace
        ≡ record (core w.trace) { running = if is_zero ret then false else (core w.trace).running }
  unfolding sat_disable
  sat_disable-core w = ground arith

  -- A complete session leaves the mark at the satellite stack.
  satellite_session-mark :
      (fuel : ℕ) (w : AppWorld) → (core (satellite_session c env fuel w).1.trace).mark ≡ sat_stack
  unfolding satellite_session
  satellite_session-mark fuel w =
      grind (arith, sat_enable-core, sat_disable-core, sat_transmit-core)

-- What a complete round ends with: the mutex is given back while the mark still selects the
-- satellite stack, and only then the mark is set to Bluetooth.
pub record EndsRound (w' : AppWorld) : Type 0 where
  pub before : List Call
  pub last : w'.trace ≡ stack_mark ble_stack ∷ k_mutex_unlock radio_mutex ∷ before
  pub mark_before : (core before).mark ≡ sat_stack

module _ (c : Config) (env : AppEnv) where
  end_round-EndsRound :
      (complete : Bool) (w : AppWorld)
      → (core w.trace).mark ≡ sat_stack
      → (end_round c env complete w).0 ≡ true
      → EndsRound (end_round c env complete w).1
  unfolding end_round
  end_round-EndsRound false w m h = absurd (false≢true h)
  end_round-EndsRound true w m h = record { before = w.trace; last = refl; mark_before = m }

  round_after-EndsRound :
      (fuel : ℕ) (scheduled : Option ℤ) (w : AppWorld)
      → (round_after c env fuel scheduled w).0 ≡ true
      → EndsRound (round_after c env fuel scheduled w).1
  unfolding round_after
  round_after-EndsRound fuel none w h = absurd (false≢true h)
  round_after-EndsRound fuel (some r) w h =
      end_round-EndsRound _ _ (satellite_session-mark c env fuel _) h

  -- Every complete round ends with the mutex given back while the mark still selects the satellite
  -- stack, and the mark set to Bluetooth after that.
  pub main_round-EndsRound :
      (fuel : ℕ) (w : AppWorld)
      → (main_round c env fuel w).0 ≡ true
      → EndsRound (main_round c env fuel w).1
  unfolding main_round
  main_round-EndsRound fuel w h = round_after-EndsRound fuel _ _ h

  -- If the IPC instance cannot be opened, for another reason than -EALREADY, and the endpoint,
  -- which is then not registered, cannot be deregistered, the session completes and leaves the
  -- network core running.
  pub failed_open_leaves_running :
      (fuel : ℕ) (w : AppWorld)
      → ((tr : List Call) → is_neg (env.ret tr ipc_service_open_instance) ≡ true)
      → ((tr : List Call) → (env.ret tr ipc_service_open_instance ==ℤ neg c.ealready) ≡ false)
      → ((tr : List Call) → is_zero (env.ret tr ipc_service_deregister_endpoint) ≡ false)
      → let (complete, w') = satellite_session c env fuel w in
        (complete ≡ true) × ((core w'.trace).running ≡ true)
  unfolding satellite_session sat_enable sat_disable
  failed_open_leaves_running fuel w refused not_already unregistered =
      let opening : List Call = nrf53_cpunet_enable true ∷ stack_mark sat_stack ∷ w.trace in
      ground (
        arith,
        refused opening,
        not_already opening,
        unregistered (ipc_service_open_instance ∷ opening),
      )
