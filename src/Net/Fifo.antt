-- ===== src/Net/Fifo.antt =====
-- The queues of app/cpunet/src/main.c, as a trace of the network core leaves them.
use hubble_reference_thingy.Common.{ℕ, ◌≡◌, List, [], ◌∷◌, ◌++◌, drop}
use hubble_reference_thingy.Net.Calls.{
  NetEnv, NetCall, Fifo, tx_queue, rx_queue, k_fifo_put, k_fifo_get,
}

-- what is in a queue, the oldest first
abbrev fifo_step : Fifo → NetCall → List (List ℕ) → List (List ℕ)
fifo_step tx_queue (k_fifo_put tx_queue buf) bufs = bufs ++ (buf ∷ [])
fifo_step rx_queue (k_fifo_put rx_queue buf) bufs = bufs ++ (buf ∷ [])
fifo_step tx_queue (k_fifo_get tx_queue) bufs = drop 1 bufs
fifo_step rx_queue (k_fifo_get rx_queue) bufs = drop 1 bufs
fifo_step _ _ bufs = bufs

abbrev pub pending : Fifo → List NetCall → List (List ℕ)
pending q [] = []
pending q (k ∷ tr) = fifo_step q k (pending q tr)

-- a queue hands out what was put first
pub record IsFifo (env : NetEnv) : Type 0 where
  pub first :
      (q : Fifo) (tr : List NetCall) (buf : List ℕ) (rest : List (List ℕ))
      → pending q tr ≡ buf ∷ rest
      → env.out tr (k_fifo_get q) ≡ buf
