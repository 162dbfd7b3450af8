-- ===== src/Net/Fatal.antt =====
-- The flag ipc_ept_ready of app/cpunet/src/main.c, and the two fatal handlers that test it.
use hubble_reference_thingy.Common.{
  ℕ, zero, suc, ◌≡◌, refl, ap, ◌∙◌, Bool, false, List, [], ◌∷◌, arith,
}
use hubble_reference_thingy.Net.Calls.{NetEnv, NetWorld, NetCall, Net, Format, irq_lock, log_panic}
use hubble_reference_thingy.Net.Receive.{
  recv, hci_ipc_cmd_recv, hci_ipc_acl_recv, hci_ipc_iso_recv, hci_ipc_rx,
}
use hubble_reference_thingy.Net.Process.{hubble_sat_process, process_command}
use hubble_reference_thingy.Net.Send.{after_failure, send_until_taken, hci_ipc_send}
use hubble_reference_thingy.Net.Threads.{
  ept_bound, ep_recv, hci_ept_recv, ep_cfg, hci_ept_cfg, tx_round, sat_tx_round, start_sat,
  start_hci, sat_rx_round, hci_rx_round, start, bt_ctlr_assert_handle, k_sys_fatal_error_handler,
}

-- The code outside these sources cannot write the flag, which is static.
pub record OthersKeepReady (env : NetEnv) : Type 0 where
  pub keep :
      (tr : List NetCall) (k : NetCall) (s : Net) → (env.others tr k s).ept_ready ≡ s.ept_ready

-- what the network core does: its start, a callback, or a round of a thread
pub data Step : Type 0 where
  starts : Step
  binds_hci binds_sat : Step
  receives_hci receives_sat : List ℕ → Step
  tx sat_tx sat_rx : Step
  hci_rx : ℕ → Step

module _ (f : Format) (env : NetEnv) where
  abbrev pub step : Step → NetWorld → NetWorld
  step starts w = (start f env w).1
  step binds_hci w = ((hci_ept_cfg f env).bound w).1
  step binds_sat w = ((ep_cfg env).bound w).1
  step (receives_hci bytes) w = ((hci_ept_cfg f env).received bytes w).1
  step (receives_sat bytes) w = ((ep_cfg env).received bytes w).1
  step tx w = (tx_round f env w).1
  step sat_tx w = (sat_tx_round f env w).1
  step sat_rx w = (sat_rx_round f env w).1
  step (hci_rx fuel) w = (hci_rx_round f env fuel w).1

  -- a life of the network core, the steps in any order
  abbrev pub run : List Step → NetWorld → NetWorld
  run [] w = w
  run (s ∷ ss) w = run ss (step s w)

  assert_silent :
      (fuel : ℕ) (w : NetWorld)
      → w.state.ept_ready ≡ false
      → (bt_ctlr_assert_handle f env fuel w).1.trace ≡ log_panic ∷ irq_lock ∷ w.trace
  unfolding bt_ctlr_assert_handle
  assert_silent fuel w down = ground arith

  fault_silent :
      (fuel : ℕ) (has_frame : Bool) (w : NetWorld)
      → w.state.ept_ready ≡ false
      → (k_sys_fatal_error_handler f env fuel has_frame w).1.trace ≡ log_panic ∷ irq_lock ∷ w.trace
  unfolding k_sys_fatal_error_handler
  fault_silent fuel has_frame w down = ground arith

  module _ (k : OthersKeepReady env) where
    recv-ready : (bytes : List ℕ) (w : NetWorld) → (hci_ipc_rx f env bytes w).1.state ≡ w.state
    unfolding hci_ipc_rx hci_ipc_cmd_recv hci_ipc_acl_recv hci_ipc_iso_recv recv
    recv-ready [] w = refl
    recv-ready (i ∷ bytes) w = ground arith

    after_failure-ready :
        (fatal : Bool) (retries : ℕ) (w : NetWorld)
        → (after_failure fatal retries w).1.state ≡ w.state
    unfolding after_failure
    after_failure-ready fatal retries w = ground arith

    send_until_taken-ready :
        (fuel : ℕ) (fatal : Bool) (retries : ℕ) (buf : List ℕ) (w : NetWorld)
        → (send_until_taken env fuel fatal retries buf w).1.state.ept_ready ≡ w.state.ept_ready
    unfolding send_until_taken
    send_until_taken-ready zero fatal retries buf w = refl
    send_until_taken-ready (suc fuel) fatal retries buf w =
        grind (arith, send_until_taken-ready fuel, after_failure-ready, k.keep)

    process-ready :
        (bytes : List ℕ) (w : NetWorld) → (hubble_sat_process f env bytes w).1.state ≡ w.state
    unfolding hubble_sat_process process_command
    process-ready bytes w = ground arith

    step-ready : (s : Step) (w : NetWorld) → (step s w).state.ept_ready ≡ w.state.ept_ready
    unfolding start start_sat start_hci ept_bound ep_recv hci_ept_recv tx_round sat_tx_round
        sat_rx_round hci_rx_round hci_ipc_send
    step-ready starts w = grind (arith, k.keep)
    step-ready binds_hci w = refl
    step-ready binds_sat w = refl
    step-ready (receives_hci bytes) w = ap (λ s. s.ept_ready) (recv-ready bytes w)
    step-ready (receives_sat bytes) w = k.keep _ _ _
    step-ready tx w = ground arith
    step-ready sat_tx w = grind (arith, k.keep, process-ready)
    step-ready sat_rx w = refl
    step-ready (hci_rx fuel) w = send_until_taken-ready fuel false 0 _ _

    run-ready : (ss : List Step) (w : NetWorld) → (run ss w).state.ept_ready ≡ w.state.ept_ready
    run-ready [] w = refl
    run-ready (s ∷ ss) w = run-ready ss (step s w) ∙ step-ready s w

    -- From a start with the flag down, no step of the core raises it, in any order of steps, if
    -- nothing outside its sources writes it. So neither fatal handler sends an event: each locks
    -- the interrupts, flushes the log and goes on to its endless loop.
    pub fatal_handlers_send_nothing :
        (ss : List Step) (fuel : ℕ) (has_frame : Bool) (w : NetWorld)
        → w.state.ept_ready ≡ false
        → let w' = run ss w in
          ((bt_ctlr_assert_handle f env fuel w').1.trace ≡ log_panic ∷ irq_lock ∷ w'.trace)
          × ((k_sys_fatal_error_handler f env fuel has_frame w').1.trace
              ≡ log_panic ∷ irq_lock ∷ w'.trace)
    fatal_handlers_send_nothing ss fuel has_frame w down =
        let still = run-ready ss w ∙ down in
        (assert_silent fuel (run ss w) still, fault_silent fuel has_frame (run ss w) still)
