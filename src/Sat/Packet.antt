-- ===== src/Sat/Packet.antt =====
-- What sat_transmit of app/src/sat_board.c gives the SDK: the bytes of the payload, and the length.
use hubble_reference_thingy.Common.{
  ℕ, zero, suc, ◌+◌, ◌≤◌, ◌<◌, ◌≡◌, ◌⊎◌, inl, inr, refl, sym, ap, ◌∙◌, Bool, true, false, List, ◌∷◌,
  ◌++◌, ◌==◌, if◌then◌else◌, take, drop, set, replicate, memcpy, length, arith, Bool-cases,
  take-append_length, length-memcpy, length-set, length-replicate, length-take,
}
use hubble_reference_thingy.Common.Int.{ℤ, is_zero}
use hubble_reference_thingy.Config.{Config, IsConfig}
use hubble_reference_thingy.App.{AppEnv, AppM, AppWorld, Sat, with_sat, u8}
use hubble_reference_thingy.Sat.Payload.{
  custom, exactly, sat_payload_set, channel_to_hubble, nearest_packet_len_get, tagged, with_reading,
  payload_get,
}

-- A length that the SDK takes: none, one of its three packets, or a length beyond them.
abbrev pub IsPacketLen : ℕ → Type 0
IsPacketLen n = (n ≡ 0) ⊎ (n ≡ 4) ⊎ (n ≡ 9) ⊎ (13 ≤ n)

-- The rounded length holds the payload and is a packet's. From 1 to 12 it is longer than the
-- payload, so that 4 bytes take the packet of 9 and 9 bytes take that of 13.
pub nearest_packet_len_get_fits :
    (n : ℕ)
    → IsPacketLen (nearest_packet_len_get n)
      × (n ≤ nearest_packet_len_get n)
      × ((n ≡ 0) ⊎ (13 ≤ n) ⊎ (n < nearest_packet_len_get n))
unfolding nearest_packet_len_get
nearest_packet_len_get_fits n = ground arith

drop-replicate : (n k : ℕ) → drop n (replicate (n + k) 0) ≡ replicate {A = ℕ} k 0
drop-replicate zero k = ap (λ n. replicate n 0) (omega arith)
drop-replicate (suc n) k =
    let e : suc n + k ≡ suc (n + k) = omega arith in rw e (drop-replicate n k)

-- the payload that a chosen text becomes: its channel is 0, and zeros fill it up
custom_packet :
    (m k : ℕ) (text : List ℕ)
    → length text + k ≡ m
    → memcpy (set (replicate (suc m) 0) 0 0) 1 text ≡ 0 ∷ text ++ replicate k 0
custom_packet m k text h =
    let e : 1 + length text ≡ suc (length text) = omega arith in
    let zeros : drop (length text) (replicate m 0) ≡ replicate {A = ℕ} k 0 =
      ap (λ n. drop (length text) (replicate n 0)) (sym h) ∙ drop-replicate (length text) k in
    rw e (ap (λ l. 0 ∷ text ++ l) zeros)

custom_bytes :
    (text buf : List ℕ) → take (length text) (memcpy buf 0 (exactly (length text) text)) ≡ text
custom_bytes text buf =
    ap (λ l. take (length text) (memcpy buf 0 l)) (take-append_length text _)
    ∙ take-append_length text _

stored :
    (text : List ℕ) (s : Sat)
    → 0 < length text
    → length text < 256
    → (sat_payload_set custom text (length text) s).1 ≡ record s {
      payload_type = custom;
      custom_buffer = memcpy s.custom_buffer 0 (exactly (length text) text);
      custom_size = length text;
    }
unfolding sat_payload_set
stored text s some_text short =
    let some : (length text == 0) ≡ false = ground arith in
    let size : u8 (length text) ≡ length text = omega arith in rw (some, size) refl

pub if-holds :
    {A : Type 0} {x y : A} (P : A → Type 0) (b : Bool) → P x → P y → P (if b then x else y)
if-holds P true hx hy = hx
if-holds P false hx hy = hy

module _ (c : Config) (env : AppEnv) where
  payload_get-custom :
      (w : AppWorld)
      → c.fuel_gauge ≡ true
      → w.state.sat.payload_type ≡ custom
      → (payload_get c env w).0 ≡ (
        c.payload_max,
        memcpy (tagged c env custom) 1 (take w.state.sat.custom_size w.state.sat.custom_buffer),
      )
  unfolding payload_get
  payload_get-custom w gauge type = ground arith

  channel_to_hubble-custom : IsConfig c → channel_to_hubble c custom ≡ 0
  unfolding channel_to_hubble
  channel_to_hubble-custom i = ground arith

  -- What sat_payload_set stores for a text of 1 to 255 bytes that is shorter than the payload comes out
  -- of the next payload_get: channel 0, the text, and zeros up to the payload's full length.
  pub payload_get-sat_payload_set :
      (text : List ℕ) (m k : ℕ) (w : AppWorld)
      → IsConfig c
      → c.fuel_gauge ≡ true
      → c.payload_max ≡ suc m
      → length text + k ≡ m
      → 0 < length text
      → length text < 256
      → (payload_get c env (record w {
        state = with_sat (λ s. (sat_payload_set custom text (length text) s).1) w.state;
      })).0
        ≡ (suc m, 0 ∷ text ++ replicate k 0)
  payload_get-sat_payload_set text m k w i gauge size fits some_text short =
      let set_text = stored text w.state.sat some_text short in
      let w' : AppWorld = record w {
        state = record w.state {
          sat = record w.state.sat {
            payload_type = custom;
            custom_buffer = memcpy w.state.sat.custom_buffer 0 (exactly (length text) text);
            custom_size = length text;
          };
        };
      } in
      ap (λ s. (payload_get c env (record w { state = record w.state { sat = s } })).0) set_text
      ∙ payload_get-custom w' gauge refl
      ∙ ap (λ l. (c.payload_max, memcpy (tagged c env custom) 1 l)) (custom_bytes text _)
      ∙ ap (λ ch. (c.payload_max, memcpy (set (replicate c.payload_max 0) 0 ch) 1 text))
          (channel_to_hubble-custom i)
      ∙ ap (λ n. (n, memcpy (set (replicate n 0) 0 0) 1 text)) size
      ∙ ap (λ l. (suc m, l)) (custom_packet m k text fits)

  filled_length :
      (type : ℕ) (bytes : List ℕ)
      → length bytes < c.payload_max
      → length (memcpy (tagged c env type) 1 bytes) ≡ c.payload_max
  filled_length type bytes h =
      let zeros : List ℕ = replicate c.payload_max 0 in
      let all : length (tagged c env type) ≡ c.payload_max =
        length-set zeros 0 (channel_to_hubble c type) ∙ length-replicate c.payload_max 0 in
      length-memcpy (tagged c env type) 1 bytes (omega (arith, h, all)) ∙ all

  with_reading-length :
      (type size : ℕ) (r : ℤ × List ℕ)
      → size < c.payload_max
      → length (with_reading c env type size r).1 ≡ c.payload_max
  with_reading-length type size (ret, bytes) h =
      let full =
        filled_length type (exactly size bytes)
          (omega (arith, h, length-take size (bytes ++ replicate size 0))) in
      elim (Bool-cases (is_zero ret)) [
        | inl ok ↦ rw ok full
        | inr bad ↦ rw bad (
            length-set (replicate c.payload_max 0) 0 (channel_to_hubble c type)
            ∙ length-replicate c.payload_max 0)
      ]

  -- Whatever the payload is, `pkt_buffer` is not written past its end, if the custom bytes and the
  -- readings are shorter than the payload.
  pub payload_get_in_bounds :
      (w : AppWorld)
      → w.state.sat.custom_size < c.payload_max
      → c.sizeof_soc < c.payload_max
      → c.sizeof_sensor_value < c.payload_max
      → length (payload_get c env w).0.1 ≡ c.payload_max
  unfolding payload_get
  payload_get_in_bounds w custom_fits soc_fits sensor_fits =
      let s = w.state.sat in
      let text = take s.custom_size s.custom_buffer in
      let text_full =
        filled_length custom text
          (omega (arith, custom_fits, length-take s.custom_size s.custom_buffer)) in
      if-holds (λ (m : AppM (ℕ × List ℕ)). length (m w).0.1 ≡ c.payload_max) c.fuel_gauge
        (if-holds (λ (m : AppM (ℕ × List ℕ)). length (m w).0.1 ≡ c.payload_max)
          (s.payload_type == custom) text_full
          (if-holds (λ (m : AppM (ℕ × List ℕ)). length (m w).0.1 ≡ c.payload_max)
            (s.payload_type == c.gauge_voltage)
            (with_reading-length s.payload_type c.sizeof_soc _ soc_fits)
            (with_reading-length s.payload_type c.sizeof_sensor_value _ sensor_fits)))
        (length-replicate c.payload_max 0)
