-- ===== src/Main/Transmits.antt =====
-- sat_transmit of app/src/sat_board.c, in a round of main and in the build without pass prediction: its
-- loop ends when the window of the current pass has closed.
use hubble_reference_thingy.Common.{
  ℕ, ◌+◌, ◌*◌, ◌<◌, ◌≡◌, refl, ap, ◌∙◌, true, false, Option, none, some, List, [], ◌∷◌,
  if◌then◌else◌, ltb, ltb→lt, ltb-false→le, Bool-cases, inl, inr, arith,
}
use hubble_reference_thingy.Common.Int.{ℤ, pos, is_zero}
use hubble_reference_thingy.Config.{Config}
use hubble_reference_thingy.App.{AppEnv, AppWorld, Call, Pass, Sat, k_uptime_get, with_sat}
use hubble_reference_thingy.Drivers.Led.{led_blink_start, led_blink_stop}
use hubble_reference_thingy.Sat.Passes.{pass_at, sat_transmission_time_get}
use hubble_reference_thingy.Sat.Payload.{payload_get}
use hubble_reference_thingy.Sat.Schedule.{ms_per_s}
use hubble_reference_thingy.Sat.Flag.{packet_result, payload_get-state, led_blink_start-state}
use hubble_reference_thingy.Sat.Transmit.{
  finish_transmit, send_packet, transmit_packet, sat_transmit,
}
use hubble_reference_thingy.Sat.Window.{
  sends, IsClock, OthersKeepInterval, EndsIn, send_in_window_ends,
}
use hubble_reference_thingy.Sat.Table.{pending}
use hubble_reference_thingy.Sat.Schedule.FromTable.{pending-cons}
use hubble_reference_thingy.Sat.Search.{pending-nil}
use hubble_reference_thingy.Main.Quiet.{payload_get-sends, led_blink_start-sends}

-- The table's current pass is `p`, and packets are to be sent every `q` seconds.
pub record IsServing (p : Pass) (q : ℕ) (s : Sat) : Type 0 where
  pub more : s.idx < s.count
  pub current : pass_at s s.idx ≡ p
  pub interval : s.retransmission_s ≡ q

-- Two readings of the clock in a row are less than a second apart.
pub record IsPrompt (env : AppEnv) : Type 0 where
  pub prompt :
      (tr : List Call)
      → env.val (k_uptime_get ∷ tr) k_uptime_get < env.val tr k_uptime_get + ms_per_s

pub IsServing-pending :
    (s : Sat) (p : Pass) (ps : List Pass) → pending s ≡ p ∷ ps → IsServing p s.retransmission_s s
IsServing-pending s p ps h = elim (Bool-cases (ltb s.idx s.count)) [
  | inl more ↦
      let (qs, e) = pending-cons s (ltb→lt _ _ more) in
      record { more = ltb→lt _ _ more; current = cc; interval = refl }
  | inr over ↦
      let gone : pending s ≡ [] = pending-nil s (ltb-false→le s.idx _ over) in absurd (differ gone)
]
  where
    differ : pending s ≡ [] → ⊥
    differ gone = cc

EndsIn-after :
    {w w' : AppWorld} (m n : ℕ) (r r' : Option ℤ × AppWorld)
    → sends w'.trace ≡ sends w.trace
    → r'.0 ≡ r.0
    → sends r'.1.trace ≡ sends r.1.trace
    → EndsIn m n w' r
    → EndsIn m n w r'
EndsIn-after m n r r' before same after e = record {
  ret = e.ret;
  returned = same ∙ e.returned;
  at_least = omega (arith, e.at_least);
  at_most = omega (arith, e.at_most);
}

mul-ms_per_s : (n q : ℕ) → n * (q * ms_per_s) ≡ n * q * ms_per_s
mul-ms_per_s n q = omega arith

module _ (c : Config) (env : AppEnv) (off : c.pass_prediction ≡ false) (clock : IsClock env)
    (on_time : IsPrompt env) (keep : OthersKeepInterval env) where
  send_packet-EndsIn :
      (p : Pass) (q fuel n : ℕ) (pkt : List ℕ) (w : AppWorld)
      → IsServing p q w.state.sat
      → p.duration < n * q
      → n < fuel
      → EndsIn 1 n w (send_packet c env fuel pkt w)
  unfolding send_packet sat_transmission_time_get
  send_packet-EndsIn p q fuel n pkt w s last enough =
      let i = w.state.sat.retransmission_s in
      let longer : p.duration < n * i = rw s.interval last in
      rw off (
        send_in_window_ends env clock keep fuel n p.duration pkt w (ground (arith, s))
          (omega (arith, on_time.prompt w.trace, mul-ms_per_s n i, longer)) enough)

  finish_transmit-ret :
      (ret : ℤ) (w : AppWorld)
      → (finish_transmit c env (some ret) w).0 ≡ some (if is_zero ret then pos 0 else ret)
  unfolding finish_transmit
  finish_transmit-ret ret w = ground arith

  finish_transmit-sends :
      (r : Option ℤ) (w : AppWorld) → sends (finish_transmit c env r w).1.trace ≡ sends w.trace
  unfolding finish_transmit led_blink_stop
  finish_transmit-sends none w = refl
  finish_transmit-sends (some ret) w = ground arith

  finish_transmit-EndsIn :
      (m n : ℕ) (w : AppWorld) (r : Option ℤ × AppWorld)
      → EndsIn m n w r
      → EndsIn m n w (finish_transmit c env r.0 r.1)
  finish_transmit-EndsIn m n w r e = record {
    ret = if is_zero e.ret then pos 0 else e.ret;
    returned = ap (λ o. (finish_transmit c env o r.1).0) e.returned ∙ finish_transmit-ret e.ret r.1;
    at_least = omega (arith, e.at_least, finish_transmit-sends r.0 r.1);
    at_most = omega (arith, e.at_most, finish_transmit-sends r.0 r.1);
  }

  -- a transmission with the SDK's result `ret` for the packet
  transmit_packet-EndsIn :
      (p : Pass) (q fuel n : ℕ) (ret : ℤ) (pkt : List ℕ) (w : AppWorld)
      → IsServing p q w.state.sat
      → p.duration < n * q
      → n < fuel
      → EndsIn (if is_zero ret then 1 else 0) n w (transmit_packet c env fuel ret pkt w)
  unfolding transmit_packet
  transmit_packet-EndsIn p q fuel n ret pkt w s last enough = elim (Bool-cases (is_zero ret)) [
    | inr bad ↦
        rw bad record { ret = ret; returned = refl; at_least = omega arith; at_most = omega arith }
    | inl good ↦
        let w' : AppWorld = record w {
          state = with_sat (λ s. record s { transmitting = true }) w.state;
        } in
        let lit = (led_blink_start c env w').1 in
        let s' : IsServing p q w'.state.sat = record {
          more = s.more;
          current = s.current;
          interval = s.interval;
        } in
        let serving : IsServing p q lit.state.sat = rw (led_blink_start-state c env w') s' in
        let sent = send_packet-EndsIn p q fuel n pkt lit serving last enough in
        rw good (
          finish_transmit-EndsIn 1 n w (send_packet c env fuel pkt lit)
            (EndsIn-after 1 n _ _ (led_blink_start-sends c env w') refl refl sent))
  ]

  pub sat_transmit-EndsIn :
      (p : Pass) (q fuel n : ℕ) (w : AppWorld)
      → IsServing p q w.state.sat
      → p.duration < n * q
      → n < fuel
      → EndsIn (if is_zero (packet_result c env w) then 1 else 0) n w (sat_transmit c env fuel w)
  unfolding sat_transmit
  sat_transmit-EndsIn p q fuel n w s last enough =
      let serving : IsServing p q (payload_get c env w).1.state.sat =
        rw (payload_get-state c env w) s in
      EndsIn-after _ n _ _ (payload_get-sends c env w) refl refl
        (transmit_packet-EndsIn p q fuel n _ _ _ serving last enough)
