-- ===== src/Net/Send.antt =====
-- hci_ipc_send of app/cpunet/src/main.c: send a buffer to the host, as often as it takes.
use hubble_reference_thingy.Common.{
  ℕ, zero, suc, ◌+◌, ◌%◌, Bool, true, false, List, ltb, if◌then◌else◌,
}
use hubble_reference_thingy.Common.Int.{is_neg}
use hubble_reference_thingy.Common.Effects.{pure, ◌>>=◌, ◌>>◌, block, emit}
use hubble_reference_thingy.Net.Calls.{
  NetEnv, NetM, hci_ept, ipc_service_send, log_blocked, k_yield, z_spin_delay, net_buf_unref,
}

-- `retries > 10` warns and counts afresh
abbrev pub max_retries : ℕ
max_retries = 10

-- what a failed attempt does before the next one; the result is the new `retries`
unfoldable pub after_failure : Bool → ℕ → NetM ℕ
after_failure is_fatal_err retries = do
  let r = (retries + 1) % 256
  (if ltb max_retries r then emit log_blocked else pure tt)
  (if is_fatal_err then pure tt else do emit (z_spin_delay 500); emit k_yield)
  pure (if ltb max_retries r then 0 else r)

-- The `do ... while`. The result is false if the fuel ran out.
unfoldable pub send_until_taken : NetEnv → ℕ → Bool → ℕ → List ℕ → NetM Bool
unfolding after_failure
send_until_taken env zero is_fatal_err retries buf = pure false
send_until_taken env (suc fuel) is_fatal_err retries buf = do
  ret ← block env (ipc_service_send hci_ept buf)
  elim (is_neg ret) [
    | false ↦ (do emit (net_buf_unref buf); pure true)
    | true ↦ (do
      r ← after_failure is_fatal_err retries
      send_until_taken env fuel is_fatal_err r buf)
  ]

unfoldable pub hci_ipc_send : NetEnv → ℕ → List ℕ → Bool → NetM Bool
unfolding send_until_taken
hci_ipc_send env fuel buf is_fatal_err = send_until_taken env fuel is_fatal_err 0 buf
