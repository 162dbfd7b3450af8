-- ===== src/Device/Interleaved.antt =====
-- The threads of the application core (app/src/*.c) running into each other: while a call of one event
-- blocks, other events run, and others again while those block.
use hubble_reference_thingy.Common.{ℕ, zero, suc, ◌≤◌, List}
use hubble_reference_thingy.Config.{Config}
use hubble_reference_thingy.App.{AppEnv, AppWorld, Call}
use hubble_reference_thingy.Device.{Event, run}
use hubble_reference_thingy.Device.State.{IsApp, IsWithinBounds}
use hubble_reference_thingy.Device.Safe.{AreEvents, run-IsApp}

-- which events run while a call blocks
abbrev pub Schedule : Type 0
Schedule = List Call → Call → List Event

-- The surroundings `env`, with the scheduled events for the other threads, nested `depth` deep.
abbrev pub interleaved : Config → AppEnv → Schedule → ℕ → AppEnv
interleaved c env schedule zero = env
interleaved c env schedule (suc depth) =
    let inner = interleaved c env schedule depth in
    record env {
      others = λ tr k a. (run c inner (schedule tr k) (record { state = a; trace = tr })).1.state;
    }

interleaved-IsWithinBounds :
    (c : Config) (env : AppEnv) (schedule : Schedule) (depth : ℕ)
    → 13 ≤ c.payload_max
    → ((tr : List Call) (k : Call) → AreEvents (schedule tr k))
    → IsWithinBounds c env
    → IsWithinBounds c (interleaved c env schedule depth)
interleaved-IsWithinBounds c env schedule zero room bytes b = b
interleaved-IsWithinBounds c env schedule (suc depth) room bytes b = record {
  decodes = b.decodes;
  reads = b.reads;
  gives = b.gives;
  times = b.times;
  others = λ tr k a v.
      run-IsApp c (interleaved c env schedule depth)
        (interleaved-IsWithinBounds c env schedule depth room bytes b) (schedule tr k) _ room
        (bytes tr k) v;
}

-- From globals within their bounds, no events of the application core, in any order, leave them,
-- also when each call that blocks lets other events run, as a schedule says and nested to any
-- depth: every array keeps its length; the indices of the pass table, the custom payload and the
-- advertised part of the buffer stay inside; the entries of the table, the begin of the SDK's pass,
-- the time, the interval between packets, and the size and number of the storage's sectors fit their
-- C types. The calls that write into a buffer are taken to keep to the size that they are given, the
-- SDK's passes to begin before 2 ^ 64, the surroundings to keep the bounds, the memory of
-- every write to hold bytes, and the payload to have at least 13 bytes.
pub run-interleaved-IsApp :
    (c : Config) (env : AppEnv) (schedule : Schedule) (depth : ℕ) (es : List Event) (w : AppWorld)
    → 13 ≤ c.payload_max
    → ((tr : List Call) (k : Call) → AreEvents (schedule tr k))
    → IsWithinBounds c env
    → AreEvents es
    → IsApp c w.state
    → IsApp c (run c (interleaved c env schedule depth) es w).1.state
run-interleaved-IsApp c env schedule depth es w room bytes b a v =
    run-IsApp c (interleaved c env schedule depth)
      (interleaved-IsWithinBounds c env schedule depth room bytes b) es w room a v
