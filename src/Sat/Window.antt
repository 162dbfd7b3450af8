-- ===== src/Sat/Window.antt =====
-- The send loop of app/src/sat_board.c (HUBBLE_FOR_WHILE): it ends, and how often it sends.
use hubble_reference_thingy.Common.{
  ℕ, zero, suc, ◌+◌, ◌*◌, ◌≤◌, ◌<◌, ◌≡◌, refl, ap, ◌∙◌, true, false, Option, some, List, [], ◌∷◌,
  leb, arith, Bool-cases, inl, inr, lt→leb-false, le→leb, if◌then◌else◌,
}
use hubble_reference_thingy.Common.Int.{ℤ, pos, is_zero}
use hubble_reference_thingy.Common.Effects.{block}
use hubble_reference_thingy.App.{
  AppEnv, AppWorld, App, Call, k_uptime_get, k_sleep, hubble_sat_packet_send, reliability_none,
}
use hubble_reference_thingy.Sat.Passes.{sat_transmission_time_get}
use hubble_reference_thingy.Sat.Schedule.{ms_per_s}
use hubble_reference_thingy.Sat.Transmit.{send_while_open, send_in_window}

-- how many packets were handed to the SDK for sending
abbrev send_step : Call → ℕ → ℕ
send_step (hubble_sat_packet_send _ _) n = suc n
send_step _ n = n

abbrev pub sends : List Call → ℕ
sends [] = 0
sends (k ∷ tr) = send_step k (sends tr)

-- The kernel's clock never goes back, and a sleep takes its time.
pub record IsClock (env : AppEnv) : Type 0 where
  pub mono : (tr : List Call) (k : Call) → env.val tr k_uptime_get ≤ env.val (k ∷ tr) k_uptime_get
  pub sleeps :
      (tr : List Call) (s : ℕ)
      → env.val tr k_uptime_get + s * ms_per_s ≤ env.val (k_sleep s ∷ tr) k_uptime_get

-- No other thread changes the interval while a transmission blocks.
pub record OthersKeepInterval (env : AppEnv) : Type 0 where
  pub keep :
      (tr : List Call) (k : Call) (a : App)
      → (env.others tr k a).sat.retransmission_s ≡ a.sat.retransmission_s

abbrev interval : AppWorld → ℕ
interval w = w.state.sat.retransmission_s

-- The loop has ended, and sent between `m` and `n` times.
pub record EndsIn (m n : ℕ) (w : AppWorld) (r : Option ℤ × AppWorld) : Type 0 where
  pub ret : ℤ
  pub returned : r.0 ≡ some ret
  pub at_least : sends w.trace + m ≤ sends r.1.trace
  pub at_most : sends r.1.trace ≤ sends w.trace + n

suc_mul : (n q : ℕ) → suc n * q ≡ q + n * q
suc_mul n q = omega arith

EndsIn-suc :
    (w w' : AppWorld) (m n : ℕ) (r : Option ℤ × AppWorld)
    → sends w'.trace ≡ suc (sends w.trace)
    → EndsIn m n w' r
    → EndsIn 1 (suc n) w r
EndsIn-suc w w' m n r h e = record {
  ret = e.ret;
  returned = e.returned;
  at_least = omega (arith, h, e.at_least);
  at_most = omega (arith, h, e.at_most);
}

-- whether the window is open at all
abbrev first : ℕ → ℕ → ℕ → ℕ
first now start duration = if leb now (start + duration * ms_per_s) then 1 else 0

module _ (env : AppEnv) (clock : IsClock env) (k : OthersKeepInterval env) where
  send_while_open-EndsIn :
      (fuel n now start duration q : ℕ) (pkt : List ℕ) (w : AppWorld)
      → now ≤ env.val w.trace k_uptime_get
      → interval w * ms_per_s ≡ q
      → start + duration * ms_per_s < now + n * q
      → n < fuel
      → EndsIn
          (first now start duration)
          n
          w
          (send_while_open env fuel now start (pos duration) pkt w)
  unfolding send_while_open
  send_while_open-EndsIn zero n now start duration q pkt w past i last enough = absurd (omega arith)
  send_while_open-EndsIn (suc fuel) zero now start duration q pkt w past i last enough =
      let closed : leb now (start + duration * ms_per_s) ≡ false = lt→leb-false _ _ (omega arith) in
      rw (closed, send_while_open)
        record { ret = pos 0; returned = refl; at_least = omega arith; at_most = omega arith }
  send_while_open-EndsIn (suc fuel) (suc n) now start duration q pkt w past i last enough =
      let send = hubble_sat_packet_send pkt reliability_none in
      let w₁ : AppWorld = (block env send w).1 in
      let s = interval w₁ in
      let w₂ : AppWorld = (block env (k_sleep s) w₁).1 in
      let w₃ : AppWorld = record w₂ { trace = k_uptime_get ∷ w₂.trace } in
      let now' = env.val w₂.trace k_uptime_get in
      let same : s ≡ interval w = k.keep w.trace send w.state in
      let slept : s * ms_per_s ≡ q = ap (λ x. x * ms_per_s) same ∙ i in
      let later : now + q ≤ now' =
        omega (arith, slept, clock.mono w.trace send, clock.sleeps w₁.trace s) in
      let i' : interval w₃ * ms_per_s ≡ q =
        ap (λ x. x * ms_per_s) (k.keep w₁.trace (k_sleep s) w₁.state ∙ same) ∙ i in
      let last' : start + duration * ms_per_s < now' + n * q =
        omega (arith, last, later, suc_mul n q) in
      let rest =
        send_while_open-EndsIn fuel n now' start duration q pkt w₃
          (clock.mono w₂.trace k_uptime_get) i' last' (omega arith) in
      elim (Bool-cases (leb now (start + duration * ms_per_s))) [
        | inr closed ↦
            rw (closed, send_while_open)
              record { ret = pos 0; returned = refl; at_least = omega arith; at_most = omega arith }
        | inl opened ↦ elim (Bool-cases (is_zero (env.ret w.trace send))) [
          | inr bad ↦
              rw (opened, bad, send_while_open)
                record {
                  ret = env.ret w.trace send;
                  returned = refl;
                  at_least = omega arith;
                  at_most = omega arith;
                }
          | inl good ↦ rw (opened, good, send_while_open) (EndsIn-suc w w₃ _ n _ refl rest)
        ]
      ]

  -- The window's loop ends with a result: where the clock goes on and sleeps take their time, and nobody
  -- changes the interval meanwhile, a pass of `duration` seconds is over after `n` intervals, if `n` of
  -- them are longer than it; it then takes `n + 1` steps of fuel at most, and sends between one packet
  -- and `n`.
  pub send_in_window_ends :
      (fuel n duration : ℕ) (pkt : List ℕ) (w : AppWorld)
      → sat_transmission_time_get w.state.sat ≡ pos duration
      → env.val (k_uptime_get ∷ w.trace) k_uptime_get + duration * ms_per_s
        < env.val w.trace k_uptime_get + n * (interval w * ms_per_s)
      → n < fuel
      → EndsIn 1 n w (send_in_window env fuel pkt w)
  unfolding send_in_window
  send_in_window_ends fuel n duration pkt w time last enough =
      let w' : AppWorld = record w { trace = k_uptime_get ∷ k_uptime_get ∷ w.trace } in
      let past : env.val w.trace k_uptime_get ≤ env.val w'.trace k_uptime_get = omega (
        arith,
        clock.mono w.trace k_uptime_get,
        clock.mono (k_uptime_get ∷ w.trace) k_uptime_get,
      ) in
      let now = env.val w.trace k_uptime_get in
      let start = env.val (k_uptime_get ∷ w.trace) k_uptime_get in
      let opened : leb now (start + duration * ms_per_s) ≡ true =
        le→leb _ _ (omega (arith, clock.mono w.trace k_uptime_get)) in
      let e : EndsIn 1 n w' (send_while_open env fuel now start (pos duration) pkt w') =
        rw opened at
          (send_while_open-EndsIn fuel n now start duration _ pkt w' past refl last enough) in
      rw time
        record { ret = e.ret; returned = e.returned; at_least = e.at_least; at_most = e.at_most }
