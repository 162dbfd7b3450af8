-- ===== src/Shell/Report.antt =====
-- What the `status` command of app/src/shell.c shows.
use hubble_reference_thingy.Common.{
  ℕ, zero, suc, ◌≡◌, refl, sym, ap, ◌∙◌, true, false, not, ◌||◌, ◌==◌, List, [], ◌∷◌, ◌++◌,
  append_assoc, append-nil, length, if◌then◌else◌, Bool-cases, inl, inr, arith,
}
use hubble_reference_thingy.Common.Int.{pos}
use hubble_reference_thingy.Config.{Config}
use hubble_reference_thingy.App.{AppEnv, AppWorld, Call, shell_print, scheduled_at}
use hubble_reference_thingy.Sat.Passes.{sat_next_transmission_get}
use hubble_reference_thingy.Sat.Queue
use hubble_reference_thingy.Sat.Table.{IsTable, view}
use hubble_reference_thingy.Sat.Listing.{sat_next_transmission_get_refines}
use hubble_reference_thingy.Main.Key.{crypto_key_is_set}
use hubble_reference_thingy.Shell.Status.{
  timestamps_to_print, print_times, print_state, cmd_status, cmd_time,
}

-- the times that the shell has shown, the first one first
abbrev pub shown : List Call → List ℕ
shown [] = []
shown (shell_print (scheduled_at t) ∷ tr) = shown tr ++ (t ∷ [])
shown (_ ∷ tr) = shown tr

print_times-shown :
    (ts : List ℕ) (w : AppWorld) → shown (print_times ts w).1.trace ≡ shown w.trace ++ ts
unfolding print_times
print_times-shown [] w = sym (append-nil (shown w.trace))
print_times-shown (t ∷ ts) w =
    print_times-shown ts (record w { trace = shell_print (scheduled_at t) ∷ w.trace })
    ∙ append_assoc (shown w.trace) (t ∷ []) ts

-- Printing changes nothing.
print_times-same : (ts : List ℕ) (w : AppWorld) → (print_times ts w).1.state ≡ w.state
unfolding print_times
print_times-same [] w = refl
print_times-same (t ∷ ts) w = print_times-same ts _

module _ (c : Config) (env : AppEnv) where
  print_state-shown :
      (w : AppWorld)
      → (w.state.utc_time == 0) ≡ false
      → crypto_key_is_set c w.state ≡ true
      → (len : ℕ) (times : List ℕ)
      → sat_next_transmission_get c (timestamps_to_print c) w.state.sat ≡ (pos len, times)
      → len ≡ length times
      → shown (print_state c env w).1.trace ≡ shown w.trace ++ times
  unfolding print_state
  print_state-shown w synced keyed zero [] e n =
      rw (synced, keyed, e) (ground (arith, append-nil (shown w.trace)))
  print_state-shown w synced keyed zero (t ∷ times) e n = absurd (omega (arith, n))
  print_state-shown w synced keyed (suc len) times e n =
      rw (synced, keyed, e) (grind (arith, print_times-shown))

  cmd_status-shown :
      (w : AppWorld) → shown (cmd_status c env w).1.trace ≡ shown (print_state c env w).1.trace
  unfolding cmd_status
  cmd_status-shown w = ground arith

  print_state-quiet :
      (w : AppWorld)
      → ((w.state.utc_time == 0) || not (crypto_key_is_set c w.state)) ≡ true
      → shown (print_state c env w).1.trace ≡ shown w.trace
  unfolding print_state
  print_state-quiet w h = ground (arith, h)

  print_state-same : (w : AppWorld) → (print_state c env w).1.state ≡ w.state
  unfolding print_state
  print_state-same w = grind (arith, print_times-same)

  pub cmd_status-same : (w : AppWorld) → (cmd_status c env w).1.state ≡ w.state
  unfolding cmd_status
  cmd_status-same w = ground (arith, print_state-same w)

  pub cmd_time-same : (w : AppWorld) → (cmd_time c env w).1.state ≡ w.state
  unfolding cmd_time
  cmd_time-same w = refl

  print_state-upcoming :
      (w : AppWorld)
      → c.pass_prediction ≡ false
      → IsTable w.state.sat
      → (w.state.utc_time == 0) ≡ false
      → crypto_key_is_set c w.state ≡ true
      → shown (print_state c env w).1.trace ≡ shown w.trace ++ Queue.upcoming 4 (view w.state.sat)
  print_state-upcoming w off v synced keyed =
      let r = sat_next_transmission_get c 4 w.state.sat in
      let (times, len) = sat_next_transmission_get_refines c 4 off v in
      let four : timestamps_to_print c ≡ 4 = ap (λ b. if b then 1 else 4) off in
      let asked : sat_next_transmission_get c (timestamps_to_print c) w.state.sat
          ≡ (pos (length r.1), r.1) =
        ap (λ n. sat_next_transmission_get c n w.state.sat) four ∙ ap (λ k. (k, r.1)) len in
      print_state-shown w synced keyed (length r.1) r.1 asked refl
      ∙ ap (λ ts. shown w.trace ++ ts) times

  -- In the build without pass prediction, the status of a device with a well-formed pass table lists
  -- the times of the next four pending passes at most, in order, and no others; before the time is
  -- known or the key is set it lists none. The command changes no global.
  pub cmd_status_shows_upcoming :
      (w : AppWorld)
      → c.pass_prediction ≡ false
      → IsTable w.state.sat
      → let waiting = (w.state.utc_time == 0) || not (crypto_key_is_set c w.state) in
        let after = (cmd_status c env w).1 in
        (shown after.trace
          ≡ shown w.trace ++ (if waiting then [] else Queue.upcoming 4 (view w.state.sat)))
        × (after.state ≡ w.state)
  cmd_status_shows_upcoming w off v = (cmd_status-shown w ∙ listed, cmd_status-same w)
    where
      listed :
          shown (print_state c env w).1.trace
          ≡ shown w.trace
            ++ (if (w.state.utc_time == 0) || not (crypto_key_is_set c w.state)
                then []
                else Queue.upcoming 4 (view w.state.sat))
      listed = elim (Bool-cases ((w.state.utc_time == 0) || not (crypto_key_is_set c w.state))) [
        | inl quiet ↦ rw quiet (print_state-quiet w quiet ∙ sym (append-nil (shown w.trace)))
        | inr ready ↦
            rw ready (print_state-upcoming w off v (ground (arith, ready)) (ground (arith, ready)))
      ]
