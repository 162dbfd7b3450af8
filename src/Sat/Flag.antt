-- ===== src/Sat/Flag.antt =====
-- The flag behind sat_is_transmitting in app/src/sat_board.c, after each way in which sat_transmit ends.
use hubble_reference_thingy.Common.{
  ℕ, zero, suc, ◌≡◌, refl, ap, ◌∙◌, Bool, true, false, Option, none, some, List, arith,
  if◌then◌else◌,
}
use hubble_reference_thingy.Common.Int.{ℤ, is_zero}
use hubble_reference_thingy.Common.Effects.{call_out}
use hubble_reference_thingy.Config.{Config}
use hubble_reference_thingy.App.{AppEnv, AppWorld, AppM, App, Call, hubble_sat_packet_get}
use hubble_reference_thingy.Drivers.Led.{led_blink_start, led_blink_stop}
use hubble_reference_thingy.Sat.Payload.{payload_get, nearest_packet_len_get}
use hubble_reference_thingy.Sat.Transmit.{
  send_while_open, send_in_window, send_once, finish_transmit, send_packet, transmit_packet,
  sat_transmit,
}

-- No other thread writes the flag while a transmission blocks.
pub record OthersKeepFlag (env : AppEnv) : Type 0 where
  pub keep :
      (tr : List Call) (k : Call) (a : App)
      → (env.others tr k a).sat.transmitting ≡ a.sat.transmitting

abbrev flag : AppWorld → Bool
flag w = w.state.sat.transmitting

pub payload_get-state :
    (c : Config) (env : AppEnv) (w : AppWorld) → (payload_get c env w).1.state ≡ w.state
unfolding payload_get
payload_get-state c env w = ground arith

pub led_blink_start-state :
    (c : Config) (env : AppEnv) (w : AppWorld) → (led_blink_start c env w).1.state ≡ w.state
unfolding led_blink_start
led_blink_start-state c env w = ground arith

if-flag :
    {w : AppWorld} (b : Bool) (f g : AppM (Option ℤ))
    → flag (f w).1 ≡ flag w
    → flag (g w).1 ≡ flag w
    → flag ((if b then f else g) w).1 ≡ flag w
if-flag true f g hf hg = hf
if-flag false f g hf hg = hg

module _ (env : AppEnv) (k : OthersKeepFlag env) where
  send_while_open-flag :
      (fuel now start : ℕ) (duration : ℤ) (pkt : List ℕ) (w : AppWorld)
      → flag (send_while_open env fuel now start duration pkt w).1 ≡ flag w
  unfolding send_while_open
  send_while_open-flag zero now start duration pkt w = refl
  send_while_open-flag (suc fuel) now start duration pkt w =
      grind (arith, send_while_open-flag fuel, k.keep)

  send_in_window-flag :
      (fuel : ℕ) (pkt : List ℕ) (w : AppWorld) → flag (send_in_window env fuel pkt w).1 ≡ flag w
  unfolding send_in_window
  send_in_window-flag fuel pkt w = send_while_open-flag fuel _ _ _ pkt _

  send_once-flag : (pkt : List ℕ) (w : AppWorld) → flag (send_once env pkt w).1 ≡ flag w
  unfolding send_once
  send_once-flag pkt w = k.keep w.trace _ w.state

module _ (c : Config) (env : AppEnv) where
  finish_transmit-flag :
      (r : Option ℤ) (w : AppWorld) {ret : ℤ}
      → (finish_transmit c env r w).0 ≡ some ret
      → flag (finish_transmit c env r w).1 ≡ (if is_zero ret then false else flag w)
  unfolding finish_transmit led_blink_stop
  finish_transmit-flag none w h = ground arith
  finish_transmit-flag (some x) w h = ground arith

  send_packet-flag :
      (fuel : ℕ) (pkt : List ℕ) (w : AppWorld)
      → OthersKeepFlag env
      → flag (send_packet c env fuel pkt w).1 ≡ flag w
  unfolding send_packet
  send_packet-flag fuel pkt w k =
      if-flag c.pass_prediction _ _ (send_once-flag env k pkt w)
        (send_in_window-flag env k fuel pkt w)

  transmit_packet-flag :
      (fuel : ℕ) (r : ℤ) (pkt : List ℕ) (w : AppWorld) {ret : ℤ}
      → OthersKeepFlag env
      → (transmit_packet c env fuel r pkt w).0 ≡ some ret
      → flag (transmit_packet c env fuel r pkt w).1
        ≡ (if is_zero ret then false else if is_zero r then true else flag w)
  unfolding transmit_packet
  transmit_packet-flag fuel r pkt w k h =
      grind (arith, finish_transmit-flag, send_packet-flag, led_blink_start-state)

  -- the SDK's answer to the request for a packet
  abbrev pub packet_result : AppWorld → ℤ
  packet_result w =
      let (p, w') = payload_get c env w in
      (call_out env (hubble_sat_packet_get p.1 (nearest_packet_len_get p.0)) w').0.0

  -- How a transmission that returns leaves the flag, where no other thread writes it meanwhile. It
  -- is down after a success; without a packet it is as before; and after a send that failed it
  -- stays up, although the transmission is over.
  pub sat_transmit-flag :
      (fuel : ℕ) (w : AppWorld) {ret : ℤ}
      → OthersKeepFlag env
      → (sat_transmit c env fuel w).0 ≡ some ret
      → flag (sat_transmit c env fuel w).1
        ≡ (if is_zero ret then false else if is_zero (packet_result w) then true else flag w)
  unfolding sat_transmit
  sat_transmit-flag fuel w {ret} k h =
      transmit_packet-flag fuel _ _ _ k h
      ∙ ap
          (λ x.
            if is_zero ret
            then false
            else if is_zero (packet_result w)
            then true
            else x.sat.transmitting)
          (payload_get-state c env w)
