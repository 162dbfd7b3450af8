-- ===== src/Net/Bridge.antt =====
-- The HCI bridge of app/cpunet/src/main.c at work: packets of the host arrive, tx_thread hands them to the
-- controller, and the loop of main answers the host, in any order.
use hubble_reference_thingy.Common.{ℕ, ◌≡◌, inl, inr, List, [], ◌∷◌, ◌++◌}
use hubble_reference_thingy.Net.Calls.{NetEnv, NetWorld, Format, tx_queue}
use hubble_reference_thingy.Net.Fifo.{pending, IsFifo}
use hubble_reference_thingy.Net.Threads.{hci_ept_recv, tx_round, hci_rx_round}
use hubble_reference_thingy.Net.Order.{
  passed, Subsequence, empty, kept, dropped, hci_ept_recv-passed, tx_round-passed,
  hci_rx_round-passed,
}

module _ (f : Format) (env : NetEnv) where
  -- from a world to another, with the packets received on the way, each without its indicator, the
  -- oldest first
  pub data Bridge (w : NetWorld) : List (List ℕ) → NetWorld → Type 0 where
    starts : Bridge w [] w
    receives :
        {packets : List (List ℕ)} {w' : NetWorld} (indicator : ℕ) (bytes : List ℕ)
        → Bridge w packets w'
        → Bridge w (packets ++ (bytes ∷ [])) (hci_ept_recv f env (indicator ∷ bytes) w').1
    -- tx_thread waits for a buffer
    hands_on :
        {packets : List (List ℕ)} {w' : NetWorld} (buf : List ℕ) (rest : List (List ℕ))
        → Bridge w packets w'
        → pending tx_queue w'.trace ≡ buf ∷ rest
        → Bridge w packets (tx_round f env w').1
    -- with the fuel for the attempts
    replies :
        {packets : List (List ℕ)} {w' : NetWorld} (fuel : ℕ)
        → Bridge w packets w'
        → Bridge w packets (hci_rx_round f env fuel w').1

  -- The controller gets the host's packets in their order, none twice and none altered, however
  -- their arrival, the thread that hands them on and the answers to the host interleave: the
  -- buffers handed on, followed by those that wait, are the packets received but for some that were
  -- dropped. The queue is taken to hand out first what was put first, and at the start nothing is
  -- handed on or waits.
  pub bridge_keeps_order :
      {w : NetWorld} {packets : List (List ℕ)} {w' : NetWorld}
      → IsFifo env
      → passed w.trace ≡ []
      → Bridge w packets w'
      → Subsequence (passed w'.trace) packets
  bridge_keeps_order q fresh starts = rw fresh empty
  bridge_keeps_order q fresh (receives {w' = w₁} indicator bytes b) =
      let sub = bridge_keeps_order q fresh b in
      elim (hci_ept_recv-passed f env indicator bytes w₁) [
        | inl refused ↦ rw refused (dropped bytes sub)
        | inr taken ↦ rw taken (kept bytes sub)
      ]
  bridge_keeps_order q fresh (hands_on {w' = w₁} buf rest b h) =
      rw (tx_round-passed f env buf rest w₁ q h) (bridge_keeps_order q fresh b)
  bridge_keeps_order q fresh (replies {w' = w₁} fuel b) =
      rw (hci_rx_round-passed f env fuel w₁) (bridge_keeps_order q fresh b)
