-- ===== src/Net/Threads.antt =====
-- The threads, callbacks and fatal handlers of app/cpunet/src/main.c, each loop as one round.
use hubble_reference_thingy.Common.{
  ℕ, Bool, true, false, ◌&&◌, Option, none, some, List, take, not, ◌==◌, if◌then◌else◌,
}
use hubble_reference_thingy.Common.Int.{ℤ, neg, is_zero, is_neg, ◌==ℤ◌}
use hubble_reference_thingy.Common.Effects.{
  pure, ◌>>=◌, ◌>>◌, gets, call, call_val, call_out, block, emit,
}
use hubble_reference_thingy.Net.Calls.{
  NetEnv, NetM, Format, hci_ept, sat_ept, tx_queue, rx_queue, tx_thread, sat_tx_thread,
  net_buf_unref, net_buf_alloc, net_buf_add_mem, k_fifo_put, k_fifo_get, bt_send, k_yield,
  ipc_service_send, ipc_service_open_instance, ipc_service_register_endpoint, k_sem_take_bound,
  k_sem_give_bound, k_thread_create, bt_enable_raw, read_mark, irq_lock, log_panic,
  hci_vs_err_assert, hci_vs_err_stack_frame,
}
use hubble_reference_thingy.SatIpc.{bytes_of, base, ok, IpcEptCfg}
use hubble_reference_thingy.Common.Text.{codes}
use hubble_reference_thingy.Net.Process.{hubble_sat_process}
use hubble_reference_thingy.Net.Receive.{hci_ipc_rx}
use hubble_reference_thingy.Net.Send.{hci_ipc_send}

-- hci_ept_bound and ep_bound; ep_recv
unfoldable pub ept_bound : NetM (Unit {0})
ept_bound = emit k_sem_give_bound

unfoldable pub ep_recv : NetEnv → List ℕ → NetM (Unit {0})
ep_recv env bytes = do
  block env net_buf_alloc
  emit (net_buf_add_mem bytes)
  emit (k_fifo_put tx_queue bytes)

-- ep_cfg
abbrev pub ep_cfg : NetEnv → IpcEptCfg (NetM (Unit {0})) (List ℕ → NetM (Unit {0}))
ep_cfg env = record { name = codes "sat_ipc"; bound = ept_bound; received = ep_recv env }

module _ (f : Format) (env : NetEnv) where
  -- hci_ept_recv
  unfoldable pub hci_ept_recv : List ℕ → NetM (Unit {0})
  unfolding hci_ipc_rx
  hci_ept_recv = hci_ipc_rx f env

  abbrev pub hci_ept_cfg : IpcEptCfg (NetM (Unit {0})) (List ℕ → NetM (Unit {0}))
  hci_ept_cfg = record { name = codes "nrf_bt_hci"; bound = ept_bound; received = hci_ept_recv }

  -- one round of tx_thread
  unfoldable pub tx_round : NetM (Unit {0})
  tx_round = do
    r ← call_out env (k_fifo_get tx_queue)
    err ← call env (bt_send r.1)
    (if not (is_zero err) then emit (net_buf_unref r.1) else pure tt)
    emit k_yield

  -- one round of sat_tx_thread
  unfoldable pub sat_tx_round : NetM (Unit {0})
  unfolding hubble_sat_process
  sat_tx_round = do
    r ← call_out env (k_fifo_get tx_queue)
    hubble_sat_process f env r.1
    emit (net_buf_unref r.1)
    block env net_buf_alloc
    emit (net_buf_add_mem (bytes_of (base ok)))
    emit (k_fifo_put rx_queue (bytes_of (base ok)))
    emit k_yield

  -- main for the satellite stack, up to its loop: `none` says that the loop is reached
  unfoldable pub start_sat : NetM (Option ℤ)
  start_sat = do
    emit (k_thread_create sat_tx_thread)
    err ← call env (ipc_service_open_instance sat_ept)
    (if is_neg err && not (err ==ℤ neg f.ealready) then pure (some err) else do
      err ← call env (ipc_service_register_endpoint sat_ept)
      (if is_neg err then pure (some err) else do block env k_sem_take_bound; pure none))

  -- main for Bluetooth, up to its loop
  unfoldable pub start_hci : NetM (Option ℤ)
  start_hci = do
    emit bt_enable_raw
    emit (k_thread_create tx_thread)
    call env (ipc_service_open_instance hci_ept)
    call env (ipc_service_register_endpoint hci_ept)
    block env k_sem_take_bound
    pure none

  -- a round of the loop that answers the host: four bytes of the buffer
  unfoldable pub sat_rx_round : NetM (Unit {0})
  sat_rx_round = do
    r ← call_out env (k_fifo_get rx_queue)
    call env (ipc_service_send sat_ept (take 4 r.1))
    emit (net_buf_unref r.1)

  unfoldable pub hci_rx_round : ℕ → NetM Bool
  unfolding hci_ipc_send
  hci_rx_round fuel = do r ← call_out env (k_fifo_get rx_queue); hci_ipc_send env fuel r.1 false

  -- main up to the loops: the mark in shared memory selects the stack
  unfoldable pub start : NetM (Option ℤ)
  unfolding start_sat start_hci
  start = do mark ← call_val env read_mark; if mark == 0 then start_sat else start_hci

  -- the event that a fatal handler sends, if it could be made
  unfoldable send_fatal : ℕ → ℤ × List ℕ → NetM (Unit {0})
  unfolding hci_ipc_send
  send_fatal fuel (ret, buf) =
      if is_zero ret then pure tt else do hci_ipc_send env fuel buf true; pure tt

  -- bt_ctlr_assert_handle, up to its endless loop
  unfoldable pub bt_ctlr_assert_handle : ℕ → NetM (Unit {0})
  unfolding send_fatal
  bt_ctlr_assert_handle fuel = do
    emit irq_lock
    ready ← gets (λ s. s.ept_ready)
    (if f.vs_fatal_error && ready
        then (do r ← call_out env hci_vs_err_assert; send_fatal fuel r)
        else pure tt)
    emit log_panic

  -- k_sys_fatal_error_handler, up to its endless loop; `has_frame` is `esf != NULL`
  unfoldable pub k_sys_fatal_error_handler : ℕ → Bool → NetM (Unit {0})
  unfolding send_fatal
  k_sys_fatal_error_handler fuel has_frame = do
    emit irq_lock
    ready ← gets (λ s. s.ept_ready)
    (if has_frame && ready
        then (do r ← call_out env hci_vs_err_stack_frame; send_fatal fuel r)
        else pure tt)
    emit log_panic
