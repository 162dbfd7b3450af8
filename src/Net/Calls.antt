-- ===== src/Net/Calls.antt =====
-- The network core's foreign calls, its one flag, and the HCI header formats that it reads.
use hubble_reference_thingy.Common.{ℕ, Bool, List}
use hubble_reference_thingy.Common.Effects.{World, Env, M}

-- the kinds of packet that the host sends
pub data PktType : Type 0 where
  cmd acl iso : PktType

pub data Endpoint : Type 0 where
  hci_ept sat_ept : Endpoint

-- where a buffer comes from or goes to
pub data Fifo : Type 0 where
  tx_queue rx_queue : Fifo

pub data Thread : Type 0 where
  tx_thread sat_tx_thread : Thread

-- A buffer is given by its bytes.
pub data NetCall : Type 0 where
  -- a result that is not 0: there was a buffer, which holds the header
  bt_buf_get_tx : PktType → List ℕ → NetCall
  net_buf_tailroom net_buf_unref : List ℕ → NetCall
  net_buf_alloc : NetCall
  net_buf_add_mem : List ℕ → NetCall
  k_fifo_put : Fifo → List ℕ → NetCall
  k_fifo_get : Fifo → NetCall
  bt_send : List ℕ → NetCall
  k_yield : NetCall
  z_spin_delay : ℕ → NetCall
  ipc_service_send : Endpoint → List ℕ → NetCall
  ipc_service_open_instance ipc_service_register_endpoint : Endpoint → NetCall
  -- the warning of hci_ipc_send
  log_blocked : NetCall
  -- the satellite driver
  board_packet_send : List ℕ → NetCall
  board_init board_enable board_disable : NetCall
  k_sem_take_bound k_sem_give_bound : NetCall
  k_thread_create : Thread → NetCall
  bt_enable_raw : NetCall
  read_mark : NetCall
  irq_lock log_panic : NetCall
  hci_vs_err_assert hci_vs_err_stack_frame : NetCall

-- ipc_ept_ready
pub record Net : Type 0 where
  pub ept_ready : Bool

abbrev pub NetEnv : Type 0
NetEnv = Env Net NetCall

abbrev pub NetM : Type 0 → Type 0
NetM = M Net NetCall

abbrev pub NetWorld : Type 0
NetWorld = World Net NetCall

-- Zephyr's HCI headers, its build options and its errno numbers.
pub record Format : Type 0 where
  pub hdr_size : PktType → ℕ
  -- the payload's length that a header states
  pub payload_len : PktType → List ℕ → ℕ
  pub einval : ℕ
  pub ealready : ℕ
  -- CONFIG_BT_HCI_VS_FATAL_ERROR
  pub vs_fatal_error : Bool
