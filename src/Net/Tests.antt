-- ===== src/Net/Tests.antt =====
-- The theorems on app/cpunet/src at concrete inputs.
use hubble_reference_thingy.Common.{
  ℕ, ◌≡◌, refl, ap, true, false, List, [], ◌∷◌, arith, ltb, if◌then◌else◌, get_or,
}
use hubble_reference_thingy.Common.Int.{ℤ, pos, negsuc}
use hubble_reference_thingy.SatIpc.{base, packet, send, ok, bytes_of}
use hubble_reference_thingy.Net.Calls.{
  PktType, cmd, acl, iso, NetEnv, NetWorld, NetCall, Format, bt_buf_get_tx, net_buf_tailroom,
  k_fifo_put, k_fifo_get, tx_queue, rx_queue, net_buf_unref, net_buf_alloc, net_buf_add_mem,
  k_yield, ipc_service_send, irq_lock, log_panic,
}
use hubble_reference_thingy.Net.Receive.{recv, hci_ipc_cmd_recv, hci_ipc_rx}
use hubble_reference_thingy.Net.Fifo.{pending, IsFifo}
use hubble_reference_thingy.Net.Order.{passed, Subsequence}
use hubble_reference_thingy.Net.Bridge.{Bridge, receives, hands_on, bridge_keeps_order}
use hubble_reference_thingy.Net.Threads.{hci_ept_recv}
use hubble_reference_thingy.Net.Send.{hci_ipc_send}
use hubble_reference_thingy.Net.Threads.{
  sat_tx_round, bt_ctlr_assert_handle, k_sys_fatal_error_handler,
}
use hubble_reference_thingy.Net.Commands.{driver_call, sat_tx_round_answers_ok}
use hubble_reference_thingy.Net.Buffers.{Balanced, hci_ipc_rx-Balanced, hci_ipc_rx_queues}
use hubble_reference_thingy.Net.Retry.{attempts, TakesBy, Sent, hci_ipc_send-Sent}
use hubble_reference_thingy.Net.Fatal.{
  OthersKeepReady, starts, binds_hci, receives_sat, sat_tx, sat_rx, run,
  fatal_handlers_send_nothing,
}

-- Zephyr's headers: a command's length is its third byte
abbrev hdr_size : PktType → ℕ
hdr_size cmd = 3
hdr_size acl = 4
hdr_size iso = 4

abbrev zephyr : Format
zephyr = record {
  hdr_size = hdr_size;
  payload_len = λ t hdr. get_or hdr 2 0;
  einval = 22;
  ealready = 120;
  vs_fatal_error = true;
}

-- the other core takes the third attempt
abbrev net_ret : List NetCall → NetCall → ℤ
net_ret tr (ipc_service_send _ _) = if ltb (attempts tr) 2 then negsuc 11 else pos 4
net_ret tr (bt_buf_get_tx _ _) = pos 1
net_ret tr _ = pos 0

abbrev net_val : List NetCall → NetCall → ℕ
net_val tr (net_buf_tailroom _) = 64
net_val tr _ = 0

abbrev net_out : List NetCall → NetCall → List ℕ
net_out tr (k_fifo_get tx_queue) = bytes_of (packet send (1 ∷ 2 ∷ []))
net_out tr _ = []

abbrev surroundings : NetEnv
surroundings = record { ret = net_ret; val = net_val; out = net_out; others = λ tr k s. s }

abbrev idle : NetWorld
idle = record { state = record { ept_ready = false }; trace = [] }

sat_tx_round_answers_ok_example :
    (sat_tx_round zephyr surroundings idle).1.trace
    ≡ k_yield
      ∷ k_fifo_put rx_queue (bytes_of (base ok))
      ∷ net_buf_add_mem (bytes_of (base ok))
      ∷ net_buf_alloc
      ∷ net_buf_unref (bytes_of (packet send (1 ∷ 2 ∷ [])))
      ∷ (driver_call zephyr surroundings
          (packet send (1 ∷ 2 ∷ []))
          (record idle { trace = k_fifo_get tx_queue ∷ [] })).1.trace
sat_tx_round_answers_ok_example =
    sat_tx_round_answers_ok zephyr surroundings (packet send (1 ∷ 2 ∷ [])) idle refl

-- a command that says that it has two bytes
abbrev hdr : List ℕ
hdr = 3 ∷ 12 ∷ 2 ∷ []

abbrev payload : List ℕ
payload = 8 ∷ 9 ∷ []

hci_ipc_rx_queues_example :
    (hci_ipc_rx zephyr surroundings (1 ∷ 3 ∷ 12 ∷ 2 ∷ 8 ∷ 9 ∷ []) idle).1.trace
    ≡ k_fifo_put tx_queue (3 ∷ 12 ∷ 2 ∷ 8 ∷ 9 ∷ [])
      ∷ net_buf_tailroom hdr
      ∷ bt_buf_get_tx cmd hdr
      ∷ []
hci_ipc_rx_queues_example =
    hci_ipc_rx_queues zephyr surroundings cmd hdr payload idle refl refl refl (omega arith)

hci_ipc_rx-Balanced_example :
    Balanced zephyr surroundings idle
      (hci_ipc_rx zephyr surroundings (1 ∷ 3 ∷ 12 ∷ 7 ∷ 8 ∷ []) idle).1
hci_ipc_rx-Balanced_example = hci_ipc_rx-Balanced zephyr surroundings (1 ∷ 3 ∷ 12 ∷ 7 ∷ 8 ∷ []) idle

surroundings-TakesBy : TakesBy surroundings 3
surroundings-TakesBy = record { takes = λ tr buf h. ground arith }

hci_ipc_send-Sent_example :
    Sent surroundings 3 (4 ∷ 14 ∷ []) idle (hci_ipc_send surroundings 3 (4 ∷ 14 ∷ []) false idle)
hci_ipc_send-Sent_example =
    hci_ipc_send-Sent surroundings 3 surroundings-TakesBy 3 (4 ∷ 14 ∷ []) false idle (omega arith)
      (omega arith)

surroundings-OthersKeepReady : OthersKeepReady surroundings
surroundings-OthersKeepReady = record { keep = λ tr k s. refl }

fatal_handlers_send_nothing_example :
    let w' =
      run zephyr surroundings
        (starts ∷ binds_hci ∷ receives_sat (1 ∷ 0 ∷ 0 ∷ 0 ∷ []) ∷ sat_tx ∷ sat_rx ∷ [])
        idle in
    ((bt_ctlr_assert_handle zephyr surroundings 3 w').1.trace ≡ log_panic ∷ irq_lock ∷ w'.trace)
    × ((k_sys_fatal_error_handler zephyr surroundings 3 true w').1.trace
        ≡ log_panic ∷ irq_lock ∷ w'.trace)
fatal_handlers_send_nothing_example =
    fatal_handlers_send_nothing zephyr surroundings surroundings-OthersKeepReady
      (starts ∷ binds_hci ∷ receives_sat (1 ∷ 0 ∷ 0 ∷ 0 ∷ []) ∷ sat_tx ∷ sat_rx ∷ []) 3 true idle
      refl

-- queues that hand out what was put first
abbrev queue_out : List NetCall → NetCall → List ℕ
queue_out tr (k_fifo_get q) = get_or (pending q tr) 0 []
queue_out tr _ = []

abbrev queues : NetEnv
queues = record surroundings { out = queue_out }

queues-IsFifo : IsFifo queues
queues-IsFifo = record { first = λ q tr buf rest h. ap (λ l. get_or l 0 []) h }

-- a command, a packet of an unknown kind, and one more command, of which the first is handed on
abbrev host_packets : List (List ℕ)
host_packets = (3 ∷ 12 ∷ 0 ∷ []) ∷ (9 ∷ []) ∷ (4 ∷ 12 ∷ 0 ∷ []) ∷ []

traffic : (w' : NetWorld) × Bridge zephyr queues idle host_packets w'
unfolding hci_ept_recv hci_ipc_rx hci_ipc_cmd_recv recv
traffic = (
  _,
  hands_on _ _
      (receives 1 (4 ∷ 12 ∷ 0 ∷ [])
        (receives 7 (9 ∷ []) (receives 1 (3 ∷ 12 ∷ 0 ∷ []) Bridge.starts)))
      refl,
)

bridge_keeps_order_example : Subsequence (passed traffic.0.trace) host_packets
bridge_keeps_order_example = bridge_keeps_order zephyr queues queues-IsFifo refl traffic.1
