-- ===== src/Device/EveryPass.antt =====
-- Rounds of main (app/src/main.c), one after the other, with the other threads of the application core
-- running into them: each serves the next pass of the table.
use hubble_reference_thingy.Common.{
  ℕ, ◌*◌, ◌<◌, ◌≡◌, ap, ◌∙◌, true, false, List, [], ◌∷◌, ◌++◌, append_assoc, length, leb,
  Bool-cases, inl, inr, arith,
}
use hubble_reference_thingy.Config.{Config}
use hubble_reference_thingy.App.{AppEnv, AppWorld, Call, Pass, Sat}
use hubble_reference_thingy.Sat.Passes.{max_passes, sat_pass_add}
use hubble_reference_thingy.Sat.Payload.{sat_payload_set}
use hubble_reference_thingy.Sat.Table.{added-IsTable, pending-added}
use hubble_reference_thingy.Sat.Window.{IsClock, OthersKeepInterval}
use hubble_reference_thingy.Ble.Ephemeris.{AreEntries}
use hubble_reference_thingy.Ble.Write.{device_location_set}
use hubble_reference_thingy.Main.Transmits.{IsPrompt}
use hubble_reference_thingy.Main.Serves.{OthersKeepPass, Succeeds}
use hubble_reference_thingy.Main.Rounds.{
  rounds, HasPasses, OthersKeepPasses, AreOnTime, AreShorter, ServePasses, rounds_serve,
}
use hubble_reference_thingy.Main.Waits.{WaitsReturn}
use hubble_reference_thingy.Device.Interleaved.{Schedule, interleaved}
use hubble_reference_thingy.Device.Kept.{IsKept}
use hubble_reference_thingy.Device.Steady.{AreSteady}
use hubble_reference_thingy.Device.Serving.{
  interleaved-keeps, interleaved-OthersKeepPass, interleaved-OthersKeepInterval,
  interleaved-IsClock, interleaved-IsPrompt, interleaved-Succeeds, interleaved-WaitsReturn,
}

-- A registration goes behind the passes that are pending.
HasPasses-sat_pass_add :
    (c : Config) (ps : List Pass) (q t d : ℕ) (s : Sat)
    → HasPasses ps q s
    → HasPasses ps q (sat_pass_add c t d s).1
unfolding sat_pass_add
HasPasses-sat_pass_add c ps q t d s h = elim (Bool-cases c.pass_prediction) [
  | inl on ↦ rw on h
  | inr off ↦ rw off (elim (Bool-cases (leb max_passes s.count)) [
    | inl full ↦ rw full h
    | inr space ↦
        let room : s.count < max_passes = ground arith in
        let new : Pass = record { timestamp = t; duration = d } in
        rw space record {
          table = added-IsTable t d h.table room;
          more = h.more ++ (new ∷ []);
          waiting =
              pending-added t d h.table room
              ∙ ap (λ l. l ++ (new ∷ [])) h.waiting
              ∙ append_assoc ps h.more (new ∷ []);
          interval = h.interval;
        }
  ])
]

HasPasses-same :
    (ps : List Pass) (q : ℕ) (s s' : Sat)
    → s'.passes ≡ s.passes
    → s'.idx ≡ s.idx
    → s'.count ≡ s.count
    → s'.retransmission_s ≡ s.retransmission_s
    → HasPasses ps q s
    → HasPasses ps q s'
HasPasses-same ps q s s' passes idx count interval h = record {
  table = record {
    array = rw passes h.table.array;
    idx_in = rw (idx, count) h.table.idx_in;
    count_in = rw count h.table.count_in;
  };
  more = h.more;
  waiting = rw (passes, idx, count) h.waiting;
  interval = interval ∙ h.interval;
}

HasPasses-IsKept : (c : Config) (ps : List Pass) (q : ℕ) → IsKept c (HasPasses ps q)
unfolding device_location_set sat_payload_set
HasPasses-IsKept c ps q = record {
  adds = λ t d s h. HasPasses-sat_pass_add c ps q t d s h;
  places = λ lat lon s h.
      HasPasses-same ps q s (device_location_set c lat lon s) (ground arith) (ground arith)
        (ground arith) (ground arith) h;
  loads = λ type bytes len s h.
      HasPasses-same ps q s (sat_payload_set type bytes len s).1 (ground arith) (ground arith)
        (ground arith) (ground arith) h;
}

-- In the build without pass prediction, rounds of main serve the passes `ps` that are pending first,
-- one round for each and in their order, also when each call that blocks lets other events run, as a
-- schedule says and nested to any depth: where each round starts after the pass before has begun and
-- before its own has, it starts the timer with the seconds up to the begin of its own pass, that pass
-- is the table's current one after it too, and it sends at least one packet and at most `n`. No loop
-- runs out of fuel, and no wait without a timeout lasts for ever. The other events are any but main's
-- own and the command that sets the interval, registrations included. The table is well-formed, the
-- passes fit their fields; `n` intervals between packets are longer than each pass, and the fuel is
-- more than `n`. The network core and the SDK are taken to answer with success, the wait for the timer
-- to return where the timer was started or the semaphore given, `radio_mutex` to be given back by
-- whoever holds it, the network core to bind the endpoint when main waits for that, the clock to go
-- on, two readings in a row to be less than a second apart, sleeps to take their time, and the
-- surroundings to leave the interval alone and the table but for registrations.
pub rounds_serve_interleaved :
    (c : Config) (env : AppEnv) (schedule : Schedule) (depth : ℕ) (ps : List Pass) (q fuel n : ℕ)
    (w : AppWorld)
    → c.pass_prediction ≡ false
    → ((tr : List Call) (k : Call) → AreSteady (schedule tr k))
    → IsClock env
    → IsPrompt env
    → OthersKeepInterval env
    → OthersKeepPass env
    → OthersKeepPasses env
    → Succeeds env
    → WaitsReturn env
    → HasPasses ps q w.state.sat
    → AreOnTime c (interleaved c env schedule depth) fuel 0 ps w
    → AreEntries ps
    → AreShorter (n * q) ps
    → n < fuel
    → let env' = interleaved c env schedule depth in
      ((rounds c env' fuel (length ps) w).0 ≡ true) × ServePasses c env' fuel n ps w
rounds_serve_interleaved c env schedule depth ps q fuel n w off steady clock prompt keep current
      others ok waits h times fit short enough =
    let env' = interleaved c env schedule depth in
    let others' : OthersKeepPasses env' = record {
      keep = λ tr k a ps q.
          interleaved-keeps c env schedule steady (HasPasses ps q) depth (HasPasses-IsKept c ps q)
            (λ tr k a. others.keep tr k a ps q) tr k a;
    } in
    rounds_serve c env' off others' (interleaved-IsClock c env schedule steady depth clock)
      (interleaved-IsPrompt c env schedule steady depth prompt)
      (interleaved-OthersKeepInterval c env schedule steady depth keep)
      (interleaved-OthersKeepPass c env schedule steady depth current)
      (interleaved-Succeeds c env schedule steady depth ok)
      (interleaved-WaitsReturn c env schedule steady depth waits) [] ps q fuel n 0 w h tt times fit
      short enough
