-- ===== src/Link/Fifo.antt =====
-- What a trace of the network core (app/cpunet/src/main.c) holds: the buffers in a queue, the calls of
-- the satellite driver, the answers; and what each piece of its code adds.
use hubble_reference_thingy.Common.{ℕ, ◌≡◌, refl, append-nil, List, [], ◌∷◌, ◌++◌, arith}
use hubble_reference_thingy.SatIpc.{
  Message, base, packet, send, init, enable, disable, ok, fail, bytes_of,
}
use hubble_reference_thingy.Net.Calls.{
  NetEnv, NetWorld, NetCall, Format, tx_queue, rx_queue, sat_ept, k_fifo_get, ipc_service_send,
  board_packet_send, board_init, board_enable, board_disable,
}
use hubble_reference_thingy.Net.Fifo.{pending, IsFifo}
use hubble_reference_thingy.Net.Threads.{ep_recv, sat_tx_round, sat_rx_round}
use hubble_reference_thingy.Net.Commands.{driver_call, sat_tx_round_answers_ok}

-- the answers sent, the oldest first
abbrev pub said : List NetCall → List (List ℕ)
said [] = []
said (ipc_service_send sat_ept bytes ∷ tr) = said tr ++ (bytes ∷ [])
said (_ ∷ tr) = said tr

abbrev driver_step : NetCall → List NetCall → List NetCall
driver_step (board_packet_send frames) ks = ks ++ (board_packet_send frames ∷ [])
driver_step board_init ks = ks ++ (board_init ∷ [])
driver_step board_enable ks = ks ++ (board_enable ∷ [])
driver_step board_disable ks = ks ++ (board_disable ∷ [])
driver_step _ ks = ks

-- the driver's calls, the oldest first
abbrev pub driven : List NetCall → List NetCall
driven [] = []
driven (k ∷ tr) = driver_step k (driven tr)

-- the call that a message asks for, if it asks for one
abbrev pub asks : Message → List NetCall
asks (base send) = board_packet_send [] ∷ []
asks (packet send frames) = board_packet_send frames ∷ []
asks (base init) = board_init ∷ []
asks (packet init _) = board_init ∷ []
asks (base enable) = board_enable ∷ []
asks (packet enable _) = board_enable ∷ []
asks (base disable) = board_disable ∷ []
asks (packet disable _) = board_disable ∷ []
asks _ = []

abbrev pub asks_all : List Message → List NetCall
asks_all [] = []
asks_all (m ∷ ms) = asks m ++ asks_all ms

-- the four readings of a trace
pub record Reading : Type 0 where
  pub tx : List (List ℕ)
  pub rx : List (List ℕ)
  pub answers : List (List ℕ)
  pub calls : List NetCall

abbrev pub reading : List NetCall → Reading
reading tr = record {
  tx = pending tx_queue tr;
  rx = pending rx_queue tr;
  answers = said tr;
  calls = driven tr;
}

driver_call-reading :
    (f : Format) (env : NetEnv) (m : Message) (w : NetWorld)
    → reading (driver_call f env m w).1.trace
      ≡ record (reading w.trace) { calls = driven w.trace ++ asks m }
driver_call-reading f env (base send) w = refl
driver_call-reading f env (base init) w = refl
driver_call-reading f env (base enable) w = refl
driver_call-reading f env (base disable) w = refl
driver_call-reading f env (base ok) w = rw (append-nil (driven w.trace)) refl
driver_call-reading f env (base fail) w = rw (append-nil (driven w.trace)) refl
driver_call-reading f env (packet send frames) w = refl
driver_call-reading f env (packet init frames) w = refl
driver_call-reading f env (packet enable frames) w = refl
driver_call-reading f env (packet disable frames) w = refl
driver_call-reading f env (packet ok frames) w = rw (append-nil (driven w.trace)) refl
driver_call-reading f env (packet fail frames) w = rw (append-nil (driven w.trace)) refl

abbrev pub answer_bytes : List ℕ
answer_bytes = bytes_of (base ok)

pub ep_recv-reading :
    (env : NetEnv) (bytes : List ℕ) (w : NetWorld)
    → reading (ep_recv env bytes w).1.trace
      ≡ record (reading w.trace) { tx = pending tx_queue w.trace ++ (bytes ∷ []) }
unfolding ep_recv
ep_recv-reading env bytes w = refl

-- The thread takes the first message, makes its call of the driver, and queues one answer.
pub sat_tx_round-reading :
    (f : Format) (env : NetEnv) (m : Message) (rest : List (List ℕ)) (w : NetWorld)
    → IsFifo env
    → pending tx_queue w.trace ≡ bytes_of m ∷ rest
    → reading (sat_tx_round f env w).1.trace ≡ record {
      tx = rest;
      rx = pending rx_queue w.trace ++ (answer_bytes ∷ []);
      answers = said w.trace;
      calls = driven w.trace ++ asks m;
    }
sat_tx_round-reading f env m rest w q h =
    let taken : NetWorld = record w { trace = k_fifo_get tx_queue ∷ w.trace } in
    let e = driver_call-reading f env m taken in
    rw (sat_tx_round_answers_ok f env m w (q.first tx_queue w.trace (bytes_of m) rest h))
      (grind (arith, e, h))

-- The loop of main takes the first answer, and sends it.
pub sat_rx_round-reading :
    (env : NetEnv) (rest : List (List ℕ)) (f : Format) (w : NetWorld)
    → IsFifo env
    → pending rx_queue w.trace ≡ answer_bytes ∷ rest
    → reading (sat_rx_round f env w).1.trace
      ≡ record (reading w.trace) { rx = rest; answers = said w.trace ++ (answer_bytes ∷ []) }
unfolding sat_rx_round
sat_rx_round-reading env rest f w q h =
    let first = q.first rx_queue w.trace answer_bytes rest h in rw (first, h) refl
