-- ===== src/Device/Transmitted.antt =====
-- From the companion to the radio: an ephemeris message is written to the characteristic (app/src/ble.c),
-- and the rounds of main (app/src/main.c) transmit in each of its passes.
use hubble_reference_thingy.Common.{
  ℕ, ◌+◌, ◌*◌, ◌<◌, ◌≤◌, ◌≡◌, refl, ap, ◌∙◌, true, false, List, [], ◌++◌, append-nil, length, sym,
}
use hubble_reference_thingy.Config.{Config}
use hubble_reference_thingy.App.{AppEnv, AppWorld, Call, Pass}
use hubble_reference_thingy.Sat.Passes.{max_passes}
use hubble_reference_thingy.Sat.Table.{IsTable, pending}
use hubble_reference_thingy.Sat.Window.{IsClock, OthersKeepInterval}
use hubble_reference_thingy.Ble.Write.{set_ephemeris, chr_write_cb}
use hubble_reference_thingy.Ble.Ephemeris.{ephemeris_message, AreEntries, set_ephemeris-Registers}
use hubble_reference_thingy.Main.Transmits.{IsPrompt}
use hubble_reference_thingy.Main.Serves.{OthersKeepPass, Succeeds}
use hubble_reference_thingy.Main.Rounds.{
  rounds, HasPasses, OthersKeepPasses, AreOnTime, AreShorter, ServePasses,
}
use hubble_reference_thingy.Main.Waits.{WaitsReturn}
use hubble_reference_thingy.Device.Interleaved.{Schedule, interleaved}
use hubble_reference_thingy.Device.Kept.{chr_write_cb-keeps}
use hubble_reference_thingy.Device.Serving.{interval-IsKept}
use hubble_reference_thingy.Device.Steady.{AreSteady}
use hubble_reference_thingy.Device.EveryPass.{rounds_serve_interleaved}

-- the write of an ephemeris message
abbrev pub written_to : Config → AppEnv → List Pass → AppWorld → AppWorld
written_to c env ps w =
    (chr_write_cb c env (ephemeris_message ps) (length (ephemeris_message ps)) false w).1

written_to-sat :
    (c : Config) (env : AppEnv) (ps : List Pass) (w : AppWorld)
    → (written_to c env ps w).state.sat
      ≡ set_ephemeris c (ephemeris_message ps) (length (ephemeris_message ps)) w.state.sat
unfolding chr_write_cb
written_to-sat c env ps w = refl

written_to-HasPasses :
    (c : Config) (env : AppEnv) (ps : List Pass) (w : AppWorld)
    → c.pass_prediction ≡ false
    → IsTable w.state.sat
    → pending w.state.sat ≡ []
    → AreEntries ps
    → w.state.sat.count + length ps ≤ max_passes
    → HasPasses ps w.state.sat.retransmission_s (written_to c env ps w).state.sat
written_to-HasPasses c env ps w off v served fits room =
    let k = set_ephemeris-Registers c ps off v fits room in
    let message = ephemeris_message ps in
    let q = w.state.sat.retransmission_s in
    let e = written_to-sat c env ps w in
    record {
      table = rw e k.table;
      more = [];
      waiting = ap pending e ∙ k.queue ∙ ap (λ l. l ++ ps) served ∙ sym (append-nil ps);
      interval =
          chr_write_cb-keeps c (λ s. s.retransmission_s ≡ q) (interval-IsKept c q) env message
            (length message) false w refl;
    }

-- From the companion to the radio, in the build without pass prediction: where an ephemeris message of
-- passes that fit their fields is written to the characteristic while nothing is pending in a well-
-- formed table with room for them, the rounds of main that follow serve them, one round for each and
-- in their order, if each round starts after the pass before has begun and before its own has: it
-- starts the timer with the seconds up to the begin of its own pass, that pass is the table's current
-- one after it too, and it sends at least one packet and at most `n`. No loop runs out of fuel, and no
-- wait without a timeout lasts for ever. Each call that blocks may let other events run, as a schedule
-- says and nested to any depth, but main's own and the command that sets the interval. `n` intervals
-- between packets are longer than each pass, and the fuel is more than `n`. The network core and the
-- SDK are taken to answer with success, the wait for the timer to return where the timer was started
-- or the semaphore given, `radio_mutex` to be given back by whoever holds it, the network core to bind
-- the endpoint when main waits for that, the clock to go on, two readings in a row to be less than a
-- second apart, sleeps to take their time, and the surroundings to leave the interval alone and the
-- table but for registrations.
pub ephemeris_transmitted :
    (c : Config) (env : AppEnv) (schedule : Schedule) (depth : ℕ) (ps : List Pass) (fuel n : ℕ)
    (w : AppWorld)
    → c.pass_prediction ≡ false
    → ((tr : List Call) (k : Call) → AreSteady (schedule tr k))
    → IsClock env
    → IsPrompt env
    → OthersKeepInterval env
    → OthersKeepPass env
    → OthersKeepPasses env
    → Succeeds env
    → WaitsReturn env
    → IsTable w.state.sat
    → pending w.state.sat ≡ []
    → AreEntries ps
    → w.state.sat.count + length ps ≤ max_passes
    → let env' = interleaved c env schedule depth in
      let w₁ = written_to c env' ps w in
      AreOnTime c env' fuel 0 ps w₁
      → AreShorter (n * w.state.sat.retransmission_s) ps
      → n < fuel
      → ((rounds c env' fuel (length ps) w₁).0 ≡ true) × ServePasses c env' fuel n ps w₁
ephemeris_transmitted c env schedule depth ps fuel n w off steady clock prompt keep current others
      ok waits v served fits room times short enough =
    let env' = interleaved c env schedule depth in
    let has = written_to-HasPasses c env' ps w off v served fits room in
    rounds_serve_interleaved c env schedule depth ps w.state.sat.retransmission_s fuel n
      (written_to c env' ps w) off steady clock prompt keep current others ok waits has times fits
      short enough
