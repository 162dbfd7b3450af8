-- ===== src/App/Stack.antt =====
-- The network core as a trace of the application core's calls of nrf53_cpunet_enable leaves it: the mark
-- that says which stack it starts (app/common/sat_ipc.h), and whether such a call has switched it on last.
-- That Zephyr's bt_enable starts the core too is not followed here.
use hubble_reference_thingy.Common.{ℕ, Bool, false, List, [], ◌∷◌}
use hubble_reference_thingy.App.Calls.{Call, stack_mark, nrf53_cpunet_enable}

pub record Core : Type 0 where
  pub mark : ℕ
  pub running : Bool

abbrev pub core_step : Call → Core → Core
core_step (stack_mark m) k = record k { mark = m }
core_step (nrf53_cpunet_enable on) k = record k { running = on }
core_step _ k = k

-- before the first call: the mark is 0, and the core is off
abbrev pub core : List Call → Core
core [] = record { mark = 0; running = false }
core (c ∷ tr) = core_step c (core tr)
