-- ===== src/Ble/Served.antt =====
-- From the companion to the radio: the passes of an ephemeris message (app/src/ble.c) and the rounds of
-- main that wait for them (app/src/sat_board.c).
use hubble_reference_thingy.Common.{ℕ, ◌+◌, ◌≤◌, ◌≡◌, ap, ◌∙◌, false, List, [], ◌++◌, length}
use hubble_reference_thingy.Config.{Config}
use hubble_reference_thingy.App.{Sat, Pass}
use hubble_reference_thingy.Sat.Passes.{max_passes}
use hubble_reference_thingy.Sat.Table.{IsTable, pending}
use hubble_reference_thingy.Sat.Source.{AreInTime}
use hubble_reference_thingy.Sat.Rounds.{waited_for, next_in_table_serves_each}
use hubble_reference_thingy.Ble.Write.{set_ephemeris}
use hubble_reference_thingy.Ble.Ephemeris.{ephemeris_message, AreEntries, set_ephemeris-Registers}

-- From the companion to the timer, in the build without pass prediction: when an ephemeris message
-- of passes that fit their fields is written to a well-formed table with nothing pending and room
-- for them, rounds whose searches run in time wait for exactly these passes, each once and in
-- order.
pub ephemeris_served :
    (c : Config) (ps : List Pass) (times : List ℕ) {s : Sat}
    → c.pass_prediction ≡ false
    → IsTable s
    → pending s ≡ []
    → AreEntries ps
    → s.count + length ps ≤ max_passes
    → AreInTime 0 times ps
    → waited_for times (set_ephemeris c (ephemeris_message ps) (length (ephemeris_message ps)) s)
      ≡ ps
ephemeris_served c ps times {s} off v served fits room t =
    let k = set_ephemeris-Registers c ps off v fits room in
    let fresh = k.queue ∙ ap (λ l. l ++ ps) served in
    next_in_table_serves_each times _ k.table (rw fresh t) ∙ fresh
