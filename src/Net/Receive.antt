-- ===== src/Net/Receive.antt =====
-- Packets from the host, in app/cpunet/src/main.c: hci_ipc_cmd_recv, hci_ipc_acl_recv,
-- hci_ipc_iso_recv and hci_ipc_rx. A buffer that is returned holds a packet.
use hubble_reference_thingy.Common.{
  ℕ, Option, none, some, List, [], ◌∷◌, ◌++◌, take, drop, ltb, ◌==◌, not, if◌then◌else◌, length,
}
use hubble_reference_thingy.Common.Int.{is_zero}
use hubble_reference_thingy.Common.Effects.{pure, ◌>>=◌, ◌>>◌, call, call_val, emit}
use hubble_reference_thingy.Net.Calls.{
  PktType, cmd, acl, iso, NetEnv, NetM, Format, bt_buf_get_tx, net_buf_tailroom, net_buf_unref,
  k_fifo_put, tx_queue,
}

-- HCI_IPC_CMD, HCI_IPC_ACL and HCI_IPC_ISO
abbrev pub hci_ipc_cmd : ℕ
hci_ipc_cmd = 1

abbrev pub hci_ipc_acl : ℕ
hci_ipc_acl = 2

abbrev pub hci_ipc_iso : ℕ
hci_ipc_iso = 5

abbrev pub enqueue : Option (List ℕ) → NetM (Unit {0})
enqueue none = pure tt
enqueue (some buf) = emit (k_fifo_put tx_queue buf)

module _ (f : Format) (env : NetEnv) where
  -- The common text of the three functions, on the `data` that remain.
  unfoldable pub recv : PktType → List ℕ → NetM (Option (List ℕ))
  recv t bytes =
      let hdr = take (f.hdr_size t) bytes in
      let rest = drop (f.hdr_size t) bytes in
      if ltb (length bytes) (f.hdr_size t) then pure none else do
        buf ← call env (bt_buf_get_tx t hdr)
        (if is_zero buf
            then pure none
            else if not (length rest == f.payload_len t hdr)
            then (do emit (net_buf_unref hdr); pure none)
            else do
              tailroom ← call_val env (net_buf_tailroom hdr)
              (if ltb tailroom (length rest)
                  then (do emit (net_buf_unref hdr); pure none)
                  else pure (some (hdr ++ rest))))

  unfoldable pub hci_ipc_cmd_recv : List ℕ → NetM (Option (List ℕ))
  unfolding recv
  hci_ipc_cmd_recv = recv cmd

  unfoldable pub hci_ipc_acl_recv : List ℕ → NetM (Option (List ℕ))
  unfolding recv
  hci_ipc_acl_recv = recv acl

  unfoldable pub hci_ipc_iso_recv : List ℕ → NetM (Option (List ℕ))
  unfolding recv
  hci_ipc_iso_recv = recv iso

  -- hci_ipc_rx
  unfoldable pub hci_ipc_rx : List ℕ → NetM (Unit {0})
  unfolding hci_ipc_cmd_recv hci_ipc_acl_recv hci_ipc_iso_recv
  hci_ipc_rx [] = pure tt
  hci_ipc_rx (pkt_indicator ∷ bytes) =
      if pkt_indicator == hci_ipc_cmd
      then (do enqueue (← hci_ipc_cmd_recv bytes))
      else if pkt_indicator == hci_ipc_acl
      then (do enqueue (← hci_ipc_acl_recv bytes))
      else if pkt_indicator == hci_ipc_iso
      then (do enqueue (← hci_ipc_iso_recv bytes))
      else pure tt
