-- ===== src/Net/Retry.antt =====
-- hci_ipc_send of app/cpunet/src/main.c comes to an end: the host takes the buffer, and it is given back.
use hubble_reference_thingy.Common.{
  ℕ, suc, zero, ◌+◌, ◌≤◌, ◌<◌, ◌%◌, ◌≡◌, refl, Bool, true, false, Bool-cases, inl, inr, List, [],
  ◌∷◌, ltb, arith,
}
use hubble_reference_thingy.Common.Int.{is_neg}
use hubble_reference_thingy.Common.Effects.{block}
use hubble_reference_thingy.Net.Calls.{
  NetEnv, NetWorld, NetCall, hci_ept, ipc_service_send, net_buf_unref, log_blocked, k_yield,
  z_spin_delay,
}
use hubble_reference_thingy.Net.Send.{max_retries, after_failure, send_until_taken, hci_ipc_send}

-- the attempts to send anything
abbrev pub attempts : List NetCall → ℕ
attempts [] = 0
attempts (ipc_service_send _ _ ∷ tr) = suc (attempts tr)
attempts (_ ∷ tr) = attempts tr

-- The other core takes a packet at the latest at the `n`th attempt.
pub record TakesBy (env : NetEnv) (n : ℕ) : Type 0 where
  pub takes :
      (tr : List NetCall) (buf : List ℕ)
      → n ≤ suc (attempts tr)
      → is_neg (env.ret tr (ipc_service_send hci_ept buf)) ≡ false

-- what happens between two attempts
abbrev is_pause : NetCall → Bool
is_pause log_blocked = true
is_pause k_yield = true
is_pause (z_spin_delay _) = true
is_pause _ = false

-- The calls after `tr` are attempts to send `buf` to the host, all refused, and pauses.
pub data Refused (env : NetEnv) (buf : List ℕ) (tr : List NetCall) : List NetCall → Type 0 where
  not_yet : Refused env buf tr tr
  again :
      {tr' : List NetCall}
      → Refused env buf tr tr'
      → is_neg (env.ret tr' (ipc_service_send hci_ept buf)) ≡ true
      → Refused env buf tr (ipc_service_send hci_ept buf ∷ tr')
  pauses :
      {tr' : List NetCall} (k : NetCall)
      → Refused env buf tr tr'
      → is_pause k ≡ true
      → Refused env buf tr (k ∷ tr')

Refused-then :
    {env : NetEnv} {buf : List ℕ} {a b d : List NetCall}
    → Refused env buf a b
    → Refused env buf b d
    → Refused env buf a d
Refused-then f not_yet = f
Refused-then f (again g bad) = again (Refused-then f g) bad
Refused-then f (pauses k g p) = pauses k (Refused-then f g) p

-- A send has succeeded by the `n`th attempt of all: after attempts that were refused the host took `buf`,
-- and then, as the last call, `buf` was given back.
pub record Sent (env : NetEnv) (n : ℕ) (buf : List ℕ) (w : NetWorld) (r : Bool × NetWorld)
    : Type 0 where
  pub ended : r.0 ≡ true
  pub before : List NetCall
  pub calls : r.1.trace ≡ net_buf_unref buf ∷ ipc_service_send hci_ept buf ∷ before
  pub refused : Refused env buf w.trace before
  pub taken : is_neg (env.ret before (ipc_service_send hci_ept buf)) ≡ false
  pub at_most : attempts r.1.trace ≤ n

after_failure-attempts :
    (fatal : Bool) (retries : ℕ) (w : NetWorld)
    → attempts (after_failure fatal retries w).1.trace ≡ attempts w.trace
unfolding after_failure
after_failure-attempts fatal retries w = ground arith

after_failure-Refused :
    (env : NetEnv) (buf : List ℕ) (fatal : Bool) (retries : ℕ) (w : NetWorld)
    → Refused env buf w.trace (after_failure fatal retries w).1.trace
unfolding after_failure
after_failure-Refused env buf true retries w =
    elim (Bool-cases (ltb max_retries ((retries + 1) % 256))) [
      | inl many ↦ rw many (pauses log_blocked not_yet refl)
      | inr few ↦ rw few not_yet
    ]
after_failure-Refused env buf false retries w =
    elim (Bool-cases (ltb max_retries ((retries + 1) % 256))) [
      | inl many ↦
          rw many
            (pauses k_yield (pauses (z_spin_delay 500) (pauses log_blocked not_yet refl) refl) refl)
      | inr few ↦ rw few (pauses k_yield (pauses (z_spin_delay 500) not_yet refl) refl)
    ]

module _ (env : NetEnv) (n : ℕ) (takes : TakesBy env n) where
  send_until_taken-Sent :
      (fuel : ℕ) (fatal : Bool) (retries : ℕ) (buf : List ℕ) (w : NetWorld)
      → attempts w.trace < n
      → n ≤ attempts w.trace + fuel
      → Sent env n buf w (send_until_taken env fuel fatal retries buf w)
  unfolding send_until_taken
  send_until_taken-Sent zero fatal retries buf w left enough = absurd (omega arith)
  send_until_taken-Sent (suc fuel) fatal retries buf w left enough =
      let k = ipc_service_send hci_ept buf in
      let w₁ : NetWorld = (block env k w).1 in
      let r = after_failure fatal retries w₁ in
      let same = after_failure-attempts fatal retries w₁ in
      elim (Bool-cases (is_neg (env.ret w.trace k))) [
        | inr ok ↦
            rw (ok, send_until_taken)
              record {
                ended = refl;
                before = w.trace;
                calls = refl;
                refused = not_yet;
                taken = ok;
                at_most = omega arith;
              }
        | inl bad ↦
            let more : suc (suc (attempts w.trace)) ≤ n =
              ground (arith, takes.takes w.trace buf, bad) in
            let rest =
              send_until_taken-Sent fuel fatal r.0 buf r.1 (omega (arith, same, more))
                (omega (arith, same, enough)) in
            rw (bad, send_until_taken)
              record {
                ended = rest.ended;
                before = rest.before;
                calls = rest.calls;
                refused =
                    Refused-then
                      (Refused-then (again not_yet bad)
                        (after_failure-Refused env buf fatal retries w₁))
                      rest.refused;
                taken = rest.taken;
                at_most = rest.at_most;
              }
      ]

  -- Where the other core takes a packet by the `n`th attempt of all, as much fuel as there are
  -- attempts left, of which there is one, is enough: hci_ipc_send ends, it sends just its buffer,
  -- again and again with nothing but pauses in between as long as the host refuses, until the host
  -- takes it, within `n` attempts of all, and as its last call gives this buffer back.
  pub hci_ipc_send-Sent :
      (fuel : ℕ) (buf : List ℕ) (fatal : Bool) (w : NetWorld)
      → attempts w.trace < n
      → n ≤ attempts w.trace + fuel
      → Sent env n buf w (hci_ipc_send env fuel buf fatal w)
  unfolding hci_ipc_send
  hci_ipc_send-Sent fuel buf fatal w left enough =
      send_until_taken-Sent fuel fatal 0 buf w left enough
