-- ===== src/Net/Order.antt =====
-- The way of a packet from the host to the controller in app/cpunet/src/main.c: hci_ept_recv puts it into
-- the queue, and tx_thread hands it on.
use hubble_reference_thingy.Common.{
  ℕ, zero, suc, ◌≡◌, refl, sym, ap, ◌∙◌, ◌⊎◌, inl, inr, Bool, false, Option, none, some, List, [],
  ◌∷◌, ◌++◌, append_assoc, take, drop, arith,
}
use hubble_reference_thingy.Net.Calls.{
  PktType, cmd, acl, iso, NetEnv, NetWorld, NetCall, Format, tx_queue, bt_send,
}
use hubble_reference_thingy.Net.Fifo.{pending, IsFifo}
use hubble_reference_thingy.Net.Receive.{
  enqueue, recv, hci_ipc_cmd_recv, hci_ipc_acl_recv, hci_ipc_iso_recv, hci_ipc_rx,
}
use hubble_reference_thingy.Net.Send.{after_failure, send_until_taken, hci_ipc_send}
use hubble_reference_thingy.Net.Threads.{hci_ept_recv, tx_round, hci_rx_round}

-- the buffers handed to the controller, the oldest first
abbrev pub handed : List NetCall → List (List ℕ)
handed [] = []
handed (bt_send buf ∷ tr) = handed tr ++ (buf ∷ [])
handed (_ ∷ tr) = handed tr

-- what has been handed on and what waits, the oldest first
abbrev pub passed : List NetCall → List (List ℕ)
passed tr = handed tr ++ pending tx_queue tr

-- The first list is what is left of the second when some entries are dropped.
pub data Subsequence : List (List ℕ) → List (List ℕ) → Type 0 where
  empty : Subsequence [] []
  kept :
      {xs ys : List (List ℕ)} (b : List ℕ)
      → Subsequence xs ys
      → Subsequence (xs ++ (b ∷ [])) (ys ++ (b ∷ []))
  dropped :
      {xs ys : List (List ℕ)} (b : List ℕ) → Subsequence xs ys → Subsequence xs (ys ++ (b ∷ []))

take-append-drop : (n : ℕ) (bs : List ℕ) → take n bs ++ drop n bs ≡ bs
take-append-drop zero bs = refl
take-append-drop (suc n) [] = refl
take-append-drop (suc n) (b ∷ bs) = ap (λ l. b ∷ l) (take-append-drop n bs)

module _ (f : Format) (env : NetEnv) where
  -- A buffer that comes back holds the packet.
  recv-passed :
      (t : PktType) (bytes : List ℕ) (w : NetWorld)
      → let (r, w') = recv f env t bytes w in
        (passed w'.trace ≡ passed w.trace) × ((r ≡ none) ⊎ (r ≡ some bytes))
  unfolding recv
  recv-passed t bytes w = ground (arith, take-append-drop (f.hdr_size t) bytes)

  enqueue-passed :
      (bytes : List ℕ) (r : Option (List ℕ)) (w w' : NetWorld)
      → passed w'.trace ≡ passed w.trace
      → (r ≡ none) ⊎ (r ≡ some bytes)
      → (passed (enqueue r w').1.trace ≡ passed w.trace)
        ⊎ (passed (enqueue r w').1.trace ≡ passed w.trace ++ (bytes ∷ []))
  enqueue-passed bytes r w w' h (inl none_) = inl (rw none_ h)
  enqueue-passed bytes r w w' h (inr some_) = inr (
      rw some_ (
        sym (append_assoc (handed w'.trace) (pending tx_queue w'.trace) (bytes ∷ []))
        ∙ ap (λ l. l ++ (bytes ∷ [])) h))

  queued :
      (t : PktType) (bytes : List ℕ) (w : NetWorld)
      → let (r, w') = recv f env t bytes w in
        (passed (enqueue r w').1.trace ≡ passed w.trace)
        ⊎ (passed (enqueue r w').1.trace ≡ passed w.trace ++ (bytes ∷ []))
  queued t bytes w =
      let (same, r) = recv-passed t bytes w in
      enqueue-passed bytes (recv f env t bytes w).0 w (recv f env t bytes w).1 same r

  -- A packet is queued as it came, or refused.
  pub hci_ept_recv-passed :
      (indicator : ℕ) (bytes : List ℕ) (w : NetWorld)
      → let w' = (hci_ept_recv f env (indicator ∷ bytes) w).1 in
        (passed w'.trace ≡ passed w.trace) ⊎ (passed w'.trace ≡ passed w.trace ++ (bytes ∷ []))
  unfolding hci_ept_recv hci_ipc_rx hci_ipc_cmd_recv hci_ipc_acl_recv hci_ipc_iso_recv
  hci_ept_recv-passed indicator bytes w =
      ground (arith, queued cmd bytes w, queued acl bytes w, queued iso bytes w)

  -- The thread takes the first one, and hands it on.
  pub tx_round-passed :
      (buf : List ℕ) (rest : List (List ℕ)) (w : NetWorld)
      → IsFifo env
      → pending tx_queue w.trace ≡ buf ∷ rest
      → passed (tx_round f env w).1.trace ≡ passed w.trace
  unfolding tx_round
  tx_round-passed buf rest w q h =
      let first = q.first tx_queue w.trace buf rest h in
      let moved = append_assoc (handed w.trace) (buf ∷ []) rest in
      rw (first, h) (ground (arith, moved))

  send_until_taken-passed :
      (fuel : ℕ) (is_fatal_err : Bool) (retries : ℕ) (buf : List ℕ) (w : NetWorld)
      → passed (send_until_taken env fuel is_fatal_err retries buf w).1.trace ≡ passed w.trace
  unfolding send_until_taken after_failure
  send_until_taken-passed zero is_fatal_err retries buf w = refl
  send_until_taken-passed (suc fuel) is_fatal_err retries buf w =
      grind (arith, send_until_taken-passed fuel)

  pub hci_rx_round-passed :
      (fuel : ℕ) (w : NetWorld) → passed (hci_rx_round f env fuel w).1.trace ≡ passed w.trace
  unfolding hci_rx_round hci_ipc_send
  hci_rx_round-passed fuel w = send_until_taken-passed fuel false 0 _ _
