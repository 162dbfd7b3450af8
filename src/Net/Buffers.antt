-- ===== src/Net/Buffers.antt =====
-- The buffers of hci_ipc_rx in app/cpunet/src/main.c: a packet from the host is queued whole, and no
-- buffer is lost or given back twice.
use hubble_reference_thingy.Common.{
  ℕ, suc, ◌+◌, ◌≤◌, ◌≡◌, refl, true, false, some, List, [], ◌∷◌, ◌++◌, take, drop, ltb, ◌==◌,
  if◌then◌else◌, length, arith, ap, sym, take-append_length, drop-append_length, ◌∙◌, le→ltb-false,
  ==_iff, length-append,
}
use hubble_reference_thingy.Common.Int.{is_zero}
use hubble_reference_thingy.Net.Calls.{
  PktType, cmd, acl, iso, NetEnv, NetWorld, NetCall, Format, bt_buf_get_tx, net_buf_tailroom,
  net_buf_unref, k_fifo_put, tx_queue,
}
use hubble_reference_thingy.Net.Receive.{
  hci_ipc_cmd, hci_ipc_acl, hci_ipc_iso, recv, enqueue, hci_ipc_rx, hci_ipc_cmd_recv,
  hci_ipc_acl_recv, hci_ipc_iso_recv,
}

-- the first byte of a packet
abbrev pub indicator : PktType → ℕ
indicator cmd = hci_ipc_cmd
indicator acl = hci_ipc_acl
indicator iso = hci_ipc_iso

-- buffers that were taken from the stack's pools, and buffers that were given back or handed on
abbrev pub taken : NetEnv → List NetCall → ℕ
taken env [] = 0
taken env (bt_buf_get_tx t h ∷ tr) =
    if is_zero (env.ret tr (bt_buf_get_tx t h)) then taken env tr else suc (taken env tr)
taken env (_ ∷ tr) = taken env tr

abbrev released : List NetCall → ℕ
released [] = 0
released (net_buf_unref _ ∷ tr) = suc (released tr)
released (k_fifo_put _ _ ∷ tr) = suc (released tr)
released (_ ∷ tr) = released tr

module _ (f : Format) (env : NetEnv) where
  -- the buffers that the program holds
  abbrev pub Balanced : NetWorld → NetWorld → Type 0
  Balanced w w' = taken env w'.trace + released w.trace ≡ taken env w.trace + released w'.trace

  recv-Balanced :
      (t : PktType) (bytes : List ℕ) (w : NetWorld)
      → Balanced w (enqueue (recv f env t bytes w).0 (recv f env t bytes w).1).1
  unfolding recv
  recv-Balanced t bytes w = ground arith

  -- hci_ipc_rx leaves as many buffers held as before: what it takes from a pool it queues or gives back,
  -- whatever the bytes are and whatever the pools answer.
  pub hci_ipc_rx-Balanced :
      (bytes : List ℕ) (w : NetWorld) → Balanced w (hci_ipc_rx f env bytes w).1
  unfolding hci_ipc_rx hci_ipc_cmd_recv hci_ipc_acl_recv hci_ipc_iso_recv
  hci_ipc_rx-Balanced [] w = refl
  hci_ipc_rx-Balanced (i ∷ bytes) w = grind (arith, recv-Balanced)

  recv_queues :
      (t : PktType) (hdr payload : List ℕ) (w : NetWorld)
      → length hdr ≡ f.hdr_size t
      → length payload ≡ f.payload_len t hdr
      → is_zero (env.ret w.trace (bt_buf_get_tx t hdr)) ≡ false
      → length payload ≤ env.val (bt_buf_get_tx t hdr ∷ w.trace) (net_buf_tailroom hdr)
      → recv f env t (hdr ++ payload) w ≡ (
        some (hdr ++ payload),
        record w { trace = net_buf_tailroom hdr ∷ bt_buf_get_tx t hdr ∷ w.trace },
      )
  unfolding recv
  recv_queues t hdr payload w size len got room =
      let n = f.hdr_size t in
      let front : take n (hdr ++ payload) ≡ hdr =
        ap (λ n. take n (hdr ++ payload)) (sym size) ∙ take-append_length hdr payload in
      let back : drop n (hdr ++ payload) ≡ payload =
        ap (λ n. drop n (hdr ++ payload)) (sym size) ∙ drop-append_length hdr payload in
      let complete : ltb (length (hdr ++ payload)) n ≡ false =
        le→ltb-false _ _ (omega (arith, size, length-append hdr payload)) in
      let right : (length payload == f.payload_len t hdr) ≡ true = (==_iff _ _).1 len in
      let fits : ltb (env.val (bt_buf_get_tx t hdr ∷ w.trace) (net_buf_tailroom hdr))
            (length payload)
          ≡ false =
        le→ltb-false _ _ room in
      rw (complete, front, back, got, right, fits) refl

  -- A packet of each kind, whose header states its payload's length, is queued as it came, without the
  -- first byte, if there is a buffer with room for it.
  pub hci_ipc_rx_queues :
      (t : PktType) (hdr payload : List ℕ) (w : NetWorld)
      → length hdr ≡ f.hdr_size t
      → length payload ≡ f.payload_len t hdr
      → is_zero (env.ret w.trace (bt_buf_get_tx t hdr)) ≡ false
      → length payload ≤ env.val (bt_buf_get_tx t hdr ∷ w.trace) (net_buf_tailroom hdr)
      → (hci_ipc_rx f env (indicator t ∷ hdr ++ payload) w).1.trace
        ≡ k_fifo_put tx_queue (hdr ++ payload)
          ∷ net_buf_tailroom hdr
          ∷ bt_buf_get_tx t hdr
          ∷ w.trace
  unfolding hci_ipc_rx hci_ipc_cmd_recv hci_ipc_acl_recv hci_ipc_iso_recv
  hci_ipc_rx_queues cmd hdr payload w size len got room =
      ap (λ r. (enqueue r.0 r.1).1.trace) (recv_queues cmd hdr payload w size len got room)
  hci_ipc_rx_queues acl hdr payload w size len got room =
      ap (λ r. (enqueue r.0 r.1).1.trace) (recv_queues acl hdr payload w size len got room)
  hci_ipc_rx_queues iso hdr payload w size len got room =
      ap (λ r. (enqueue r.0 r.1).1.trace) (recv_queues iso hdr payload w size len got room)
