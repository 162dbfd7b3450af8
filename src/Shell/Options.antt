-- ===== src/Shell/Options.antt =====
-- The payload that _cmd_payload of app/src/shell.c chooses, up to the bytes that are transmitted.
use hubble_reference_thingy.Common.{
  ℕ, suc, ◌+◌, ◌<◌, ◌≡◌, refl, true, false, List, [], ◌∷◌, ◌++◌, ltb, ◌==◌, arith, length,
  replicate, lt→ltb,
}
use hubble_reference_thingy.Common.Int.{pos, neg, is_zero, is_zero-neg}
use hubble_reference_thingy.Config.{Config, IsConfig}
use hubble_reference_thingy.App.{
  AppEnv, AppWorld, with_sat, shell_mutex, k_mutex_lock, shell_print, invalid_payload,
  k_mutex_unlock,
}
use hubble_reference_thingy.Sat.Payload.{sat_payload_set, payload_get}
use hubble_reference_thingy.Sat.Packet.{payload_get-sat_payload_set}
use hubble_reference_thingy.Common.Text.{codes}
use hubble_reference_thingy.Shell.Commands.{sensor_channel_get, choose_payload, cmd_payload}

module _ (c : Config) (env : AppEnv) where
  -- The command `payload custom TEXT`, with a text of 1 to 12 bytes that is shorter than the
  -- payload, fixes the payload that is read next: channel 0, the text, and zeros up to the
  -- payload's length. The result is 0. The build has the fuel gauge, and the sensor channels of its
  -- headers differ.
  pub payload_get-cmd_payload :
      (name text : List ℕ) (m k : ℕ) (w : AppWorld)
      → IsConfig c
      → c.fuel_gauge ≡ true
      → c.payload_max ≡ suc m
      → length text + k ≡ m
      → 0 < length text
      → length text < 13
      → let r = cmd_payload c env (name ∷ codes "custom" ∷ text ∷ []) w in
        (r.0 ≡ pos 0) × ((payload_get c env r.1).0 ≡ (suc m, 0 ∷ text ++ replicate k 0))
  unfolding cmd_payload choose_payload
  payload_get-cmd_payload name text m k w i gauge size fits some_text short =
      let accepted : ltb (length text) 13 ≡ true = lt→ltb _ _ short in
      let w' : AppWorld = record {
        state = env.others w.trace (k_mutex_lock shell_mutex) w.state;
        trace = k_mutex_unlock shell_mutex ∷ k_mutex_lock shell_mutex ∷ w.trace;
      } in
      rw accepted (
        refl,
        payload_get-sat_payload_set c env text m k w' i gauge size fits some_text (omega arith),
      )

  -- The command on one word sets the payload's type also where it knows no such sensor: it prints
  -- the error, but the type becomes SENSOR_CHAN_MAX, and the result is 0. Errno numbers are taken
  -- to be positive.
  pub cmd_payload_unknown :
      (name word : List ℕ) (w : AppWorld)
      → sensor_channel_get c word ≡ c.chan_max
      → IsConfig c
      → let r = cmd_payload c env (name ∷ word ∷ []) w in
        (r.0 ≡ pos 0)
        × (r.1.state
            ≡ with_sat
                (λ s. record s { payload_type = c.chan_max })
                (env.others w.trace (k_mutex_lock shell_mutex) w.state))
        × (r.1.trace
            ≡ shell_print (invalid_payload word)
              ∷ k_mutex_unlock shell_mutex
              ∷ k_mutex_lock shell_mutex
              ∷ w.trace)
  unfolding cmd_payload choose_payload sat_payload_set
  cmd_payload_unknown name word w unknown i =
      let same : (c.chan_max == c.chan_max) ≡ true = ground arith in
      let e : is_zero (neg c.einval) ≡ false = is_zero-neg c.einval i.einval_pos in
      rw (unknown, same, e) (refl, refl, refl)
