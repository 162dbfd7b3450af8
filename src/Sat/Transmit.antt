-- ===== src/Sat/Transmit.antt =====
-- sat_transmit of app/src/sat_board.c: build the packet, then send it once, or again and again while
-- the window of the current pass is open.
use hubble_reference_thingy.Common.{
  ℕ, zero, suc, ◌+◌, ◌*◌, Bool, true, false, Option, none, some, List, leb, not, if◌then◌else◌,
}
use hubble_reference_thingy.Common.Int.{ℤ, pos, negsuc, is_zero}
use hubble_reference_thingy.Common.Effects.{pure, ◌>>=◌, ◌>>◌, gets, call_out, call_val, block}
use hubble_reference_thingy.Config.{Config}
use hubble_reference_thingy.App.{
  App, AppEnv, AppM, modify_sat, k_uptime_get, k_sleep, hubble_sat_packet_get,
  hubble_sat_packet_send, reliability_none, reliability_normal,
}
use hubble_reference_thingy.Drivers.Led.{led_blink_start, led_blink_stop}
use hubble_reference_thingy.Sat.Passes.{sat_transmission_time_get}
use hubble_reference_thingy.Sat.Payload.{payload_get, nearest_packet_len_get}
use hubble_reference_thingy.Sat.Schedule.{ms_per_s}

-- `_now <= _end`, where `_end` is `start` plus a period of `duration` seconds, maybe negative
abbrev is_open : ℕ → ℕ → ℤ → Bool
is_open now start (pos s) = leb now (start + s * ms_per_s)
is_open now start (negsuc s) = leb (now + suc s * ms_per_s) start

abbrev pub sat_is_transmitting : App → Bool
sat_is_transmitting a = a.sat.transmitting

module _ (env : AppEnv) where
  -- The loop of HUBBLE_FOR_WHILE. `some (pos 0)`: the window has closed; another result: a send failed;
  -- `none`: the fuel ran out.
  unfoldable pub send_while_open : ℕ → ℕ → ℕ → ℤ → List ℕ → AppM (Option ℤ)
  send_while_open zero now start duration pkt = pure none
  send_while_open (suc fuel) now start duration pkt = elim (is_open now start duration) [
    | false ↦ pure (some (pos 0))
    | true ↦ (do
      ret ← block env (hubble_sat_packet_send pkt reliability_none)
      elim (is_zero ret) [
        | false ↦ pure (some ret)
        | true ↦ (do
          s ← gets (λ a. a.sat.retransmission_s)
          block env (k_sleep s)
          now' ← call_val env k_uptime_get
          send_while_open fuel now' start duration pkt)
      ])
  ]

  unfoldable pub send_in_window : ℕ → List ℕ → AppM (Option ℤ)
  send_in_window fuel pkt = do
    now ← call_val env k_uptime_get
    start ← call_val env k_uptime_get
    duration ← gets (λ a. sat_transmission_time_get a.sat)
    send_while_open fuel now start duration pkt

  unfoldable pub send_once : List ℕ → AppM (Option ℤ)
  send_once pkt = do
    ret ← block env (hubble_sat_packet_send pkt reliability_normal)
    pure (some ret)

module _ (c : Config) (env : AppEnv) where
  -- the end of sat_transmit, after the last send: a failure returns at once
  unfoldable pub finish_transmit : Option ℤ → AppM (Option ℤ)
  finish_transmit none = pure none
  finish_transmit (some ret) = if not (is_zero ret) then pure (some ret) else do
    led_blink_stop c env
    modify_sat (λ s. record s { transmitting = false })
    pure (some (pos 0))

  unfoldable pub send_packet : ℕ → List ℕ → AppM (Option ℤ)
  send_packet fuel pkt =
      if c.pass_prediction then send_once env pkt else send_in_window env fuel pkt

  -- what follows the request for a packet, with its result and the packet
  unfoldable pub transmit_packet : ℕ → ℤ → List ℕ → AppM (Option ℤ)
  transmit_packet fuel ret pkt = if not (is_zero ret) then pure (some ret) else do
    modify_sat (λ s. record s { transmitting = true })
    led_blink_start c env
    sent ← send_packet fuel pkt
    finish_transmit sent

  unfoldable pub sat_transmit : ℕ → AppM (Option ℤ)
  sat_transmit fuel = do
    p ← payload_get c env
    r ← call_out env (hubble_sat_packet_get p.1 (nearest_packet_len_get p.0))
    transmit_packet fuel r.0 r.1
