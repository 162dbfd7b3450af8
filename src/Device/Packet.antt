-- ===== src/Device/Packet.antt =====
-- What sat_transmit of app/src/sat_board.c hands to the SDK, whatever the application core did before.
use hubble_reference_thingy.Common.{ℕ, ◌≤◌, ◌<◌, List, arith}
use hubble_reference_thingy.Config.{Config}
use hubble_reference_thingy.App.{AppEnv, AppWorld, Call}
use hubble_reference_thingy.Sat.Fits.{FitsPacket, payload_get-FitsPacket}
use hubble_reference_thingy.Device.{Event, run}
use hubble_reference_thingy.Device.State.{IsApp, IsWithinBounds}
use hubble_reference_thingy.Device.Safe.{AreEvents}
use hubble_reference_thingy.Device.Interleaved.{Schedule, interleaved, run-interleaved-IsApp}

-- After any events of the application core, in any order and with any others while a call blocks, the
-- buffer of the next packet has the payload's full length, and the length that goes with it is a
-- packet's, holds the payload and stays inside the buffer. The globals start within their bounds, a
-- packet has room for 13 bytes, a reading is shorter than the payload; the calls that fill a buffer are
-- taken to stay within the size that they are given, the SDK's passes to begin before 2 ^ 64, the
-- surroundings to keep the bounds, and the memory of every write to hold bytes.
pub run-interleaved-FitsPacket :
    (c : Config) (env : AppEnv) (schedule : Schedule) (depth : ℕ) (es : List Event) (w : AppWorld)
    → 13 ≤ c.payload_max
    → c.sizeof_soc < c.payload_max
    → c.sizeof_sensor_value < c.payload_max
    → ((tr : List Call) (k : Call) → AreEvents (schedule tr k))
    → IsWithinBounds c env
    → AreEvents es
    → IsApp c w.state
    → FitsPacket c
        (interleaved c env schedule depth)
        (run c (interleaved c env schedule depth) es w).1
run-interleaved-FitsPacket c env schedule depth es w room soc_fits sensor_fits events b a v =
    let env' = interleaved c env schedule depth in
    let kept = run-interleaved-IsApp c env schedule depth es w room events b a v in
    payload_get-FitsPacket c env' (run c env' es w).1 room (omega (arith, kept.sat.size)) soc_fits
      sensor_fits
