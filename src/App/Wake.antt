-- ===== src/App/Wake.antt =====
-- What may wake main of app/src/main.c, read off a trace of the application core's calls: main waits for
-- `timer_sem`, which the expiry of `sat_timer` gives.
use hubble_reference_thingy.Common.{Bool, true, false, List, [], ◌∷◌}
use hubble_reference_thingy.App.Calls.{
  Call, sat_timer, timer_sem, k_timer_start, k_sem_give, k_sem_take,
}

abbrev pub wake_step : Call → Bool → Bool
wake_step (k_timer_start sat_timer _ _) b = true
wake_step (k_sem_give timer_sem) b = true
wake_step (k_sem_take timer_sem _) b = false
wake_step _ b = b

-- whether the timer was started, or the semaphore given, since main last came back from its wait
abbrev pub may_wake : List Call → Bool
may_wake [] = false
may_wake (k ∷ tr) = wake_step k (may_wake tr)
