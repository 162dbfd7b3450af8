-- ===== src/Net/Commands.antt =====
-- Both ends of the satellite channel: the messages of app/src/sat_board.c and app/src/main.c as
-- app/cpunet/src/sat.c and sat_tx_thread of app/cpunet/src/main.c serve them.
use hubble_reference_thingy.Common.{◌≡◌, refl, ap, [], ◌∷◌}
use hubble_reference_thingy.Common.Int.{ℤ, neg}
use hubble_reference_thingy.Common.Effects.{pure, call}
use hubble_reference_thingy.SatIpc.{
  Message, base, packet, send, init, enable, disable, ok, fail, bytes_of,
}
use hubble_reference_thingy.Net.Calls.{
  NetEnv, NetM, NetWorld, Format, board_packet_send, board_init, board_enable, board_disable,
  k_fifo_get, k_fifo_put, tx_queue, rx_queue, net_buf_unref, net_buf_alloc, net_buf_add_mem,
  k_yield,
}
use hubble_reference_thingy.Net.Process.{hubble_sat_process}
use hubble_reference_thingy.Net.Threads.{sat_tx_round}

-- What the satellite driver is asked to do for a message: a packet without frames is not one that the
-- application core sends, but it would be sent, empty; an acknowledgement is refused.
abbrev pub driver_call : Format → NetEnv → Message → NetM ℤ
driver_call f env (base send) = call env (board_packet_send [])
driver_call f env (packet send frames) = call env (board_packet_send frames)
driver_call f env (base init) = call env board_init
driver_call f env (packet init _) = call env board_init
driver_call f env (base enable) = call env board_enable
driver_call f env (packet enable _) = call env board_enable
driver_call f env (base disable) = call env board_disable
driver_call f env (packet disable _) = call env board_disable
driver_call f env (base ok) = pure (neg f.einval)
driver_call f env (packet ok _) = pure (neg f.einval)
driver_call f env (base fail) = pure (neg f.einval)
driver_call f env (packet fail _) = pure (neg f.einval)

-- Every message that one core writes as bytes, the other core reads back: hubble_sat_process makes the
-- driver's call that the message stands for, with the frames it carries, and no other.
pub hubble_sat_process-bytes_of :
    (f : Format) (env : NetEnv) (m : Message) (w : NetWorld)
    → hubble_sat_process f env (bytes_of m) w ≡ driver_call f env m w
unfolding hubble_sat_process
hubble_sat_process-bytes_of f env (base send) w = refl
hubble_sat_process-bytes_of f env (base init) w = refl
hubble_sat_process-bytes_of f env (base enable) w = refl
hubble_sat_process-bytes_of f env (base disable) w = refl
hubble_sat_process-bytes_of f env (base ok) w = refl
hubble_sat_process-bytes_of f env (base fail) w = refl
hubble_sat_process-bytes_of f env (packet send frames) w = refl
hubble_sat_process-bytes_of f env (packet init frames) w = refl
hubble_sat_process-bytes_of f env (packet enable frames) w = refl
hubble_sat_process-bytes_of f env (packet disable frames) w = refl
hubble_sat_process-bytes_of f env (packet ok frames) w = refl
hubble_sat_process-bytes_of f env (packet fail frames) w = refl

-- A round of the satellite thread on a message makes the driver's call that it stands for, gives the
-- buffer back, and answers SAT_CMD_OK once: also where the driver failed, or the message was refused.
pub sat_tx_round_answers_ok :
    (f : Format) (env : NetEnv) (m : Message) (w : NetWorld)
    → env.out w.trace (k_fifo_get tx_queue) ≡ bytes_of m
    → (sat_tx_round f env w).1.trace
      ≡ k_yield
        ∷ k_fifo_put rx_queue (bytes_of (base ok))
        ∷ net_buf_add_mem (bytes_of (base ok))
        ∷ net_buf_alloc
        ∷ net_buf_unref (bytes_of m)
        ∷ (driver_call f env m (record w { trace = k_fifo_get tx_queue ∷ w.trace })).1.trace
unfolding sat_tx_round
sat_tx_round_answers_ok f env m w h =
    let w' : NetWorld = record w { trace = k_fifo_get tx_queue ∷ w.trace } in
    rw h (
      ap
        (λ r.
          k_yield
          ∷ k_fifo_put rx_queue (bytes_of (base ok))
          ∷ net_buf_add_mem (bytes_of (base ok))
          ∷ net_buf_alloc
          ∷ net_buf_unref (bytes_of m)
          ∷ r.1.trace)
        (hubble_sat_process-bytes_of f env m w'))
