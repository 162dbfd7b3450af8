-- ===== src/Main/Complete.antt =====
-- A round of main (app/src/main.c) comes to its end, in the build with pass prediction: its loop is the
-- search for the next pass, in app/src/sat_board.c.
use hubble_reference_thingy.Common.{Bool, true, false, Option, none, some}
use hubble_reference_thingy.Common.Int.{ℤ}
use hubble_reference_thingy.Config.{Config}

abbrev has_ended : Option ℤ → Bool
has_ended none = false
has_ended (some r) = true
