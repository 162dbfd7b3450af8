-- ===== src/Sat/Passes.antt =====
-- The table of satellite passes of app/src/sat_board.c (built without pass prediction): a fixed
-- array, the number of entries written, and the index of the pass that comes next.
use hubble_reference_thingy.Common.{
  ℕ, zero, suc, ◌+◌, ◌-◌, ◌/◌, ◌%◌, ◌^◌, min, Bool, true, false, List, [], ◌∷◌, ltb, leb,
  if◌then◌else◌, get_or, set, replicate,
}
use hubble_reference_thingy.Common.Int.{ℤ, pos, negsuc, neg}
use hubble_reference_thingy.Config.{Config}
use hubble_reference_thingy.App.{Sat, Pass, u16}

-- HUBBLE_NUMBER_OF_TIMESTAMPS
abbrev pub max_passes : ℕ
max_passes = 300

abbrev pub no_pass : Pass
no_pass = record { timestamp = 0; duration = 0 }

abbrev empty_table : List Pass
empty_table = replicate max_passes no_pass

abbrev pub pass_at : Sat → ℕ → Pass
pass_at s i = get_or s.passes i no_pass

-- sat_pass_add. The result 0 with an unchanged table is the build with pass prediction.
unfoldable pub sat_pass_add : Config → ℕ → ℕ → Sat → ℤ × Sat
sat_pass_add c timestamp duration s =
    if c.pass_prediction
    then (pos 0, s)
    else if leb max_passes s.count
    then (neg c.enospc, s)
    else (
      pos 0,
      record s {
        passes = set s.passes s.count (record { timestamp = timestamp; duration = duration });
        count = u16 (s.count + 1);
      },
    )

-- sat_transmission_time_get, in seconds
unfoldable pub sat_transmission_time_get : Sat → ℤ
sat_transmission_time_get s = if leb s.count s.idx then negsuc 0 else pos (pass_at s s.idx).duration

-- The `while` of sat_schedule_next_transmission: `left` counts the entries from `idx` on, so the
-- first clause is reached only where the code has returned -1.
unfoldable pub skip_started : ℕ → ℕ → Sat → Bool × Sat
skip_started zero now_s s = (false, s)
skip_started (suc left) now_s s =
    let s' = record s { idx = u16 (s.idx + 1) } in
    let rest = skip_started left now_s s' in
    if ltb (pass_at s s.idx).timestamp (now_s + 1)
    then (if leb s'.count s'.idx then (false, s') else rest)
    else (true, s)

-- the guard before that loop, and the loop
unfoldable pub next_in_table : ℕ → Sat → Bool × Sat
unfolding skip_started
next_in_table now_s s =
    if leb s.count s.idx then (false, s) else skip_started (s.count - s.idx) now_s s

-- the `for` of sat_next_transmission_get: `n` timestamps from the entry `i` on
unfoldable pub copy_timestamps : Sat → ℕ → ℕ → List ℕ
copy_timestamps s i zero = []
copy_timestamps s i (suc n) = (pass_at s i).timestamp ∷ copy_timestamps s (i + 1) n

-- sat_next_transmission_get: the result, and what it writes to `timestamps`
unfoldable pub sat_next_transmission_get : Config → ℕ → Sat → ℤ × List ℕ
unfolding copy_timestamps
sat_next_transmission_get c len s =
    if c.pass_prediction
    then (if leb s.next_pass.start 0
        then (negsuc 0, [])
        else (pos 1, (s.next_pass.start / 1000 % 2 ^ 32) ∷ []))
    else (let n = u16 (min len (s.count - s.idx)) in (pos n, copy_timestamps s s.idx n))
