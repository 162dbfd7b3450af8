-- ===== src/Sat/Fits.antt =====
-- The packet that sat_transmit of app/src/sat_board.c builds, against the room that there is for it.
use hubble_reference_thingy.Common.{ℕ, ◌≤◌, ◌<◌, ◌≡◌, List, ◌==◌, length, arith}
use hubble_reference_thingy.Common.Int.{ℤ}
use hubble_reference_thingy.Config.{Config}
use hubble_reference_thingy.App.{AppEnv, AppM, AppWorld}
use hubble_reference_thingy.Sat.Payload.{custom, nearest_packet_len_get, with_reading, payload_get}
use hubble_reference_thingy.Sat.Packet.{
  IsPacketLen, if-holds, nearest_packet_len_get_fits, payload_get_in_bounds,
}

module _ (c : Config) (env : AppEnv) where
  with_reading_size :
      (type size : ℕ) (r : ℤ × List ℕ)
      → size < c.payload_max
      → (with_reading c env type size r).0 ≤ c.payload_max
  with_reading_size type size (ret, bytes) h = ground arith

  payload_get_size :
      (w : AppWorld)
      → c.sizeof_soc < c.payload_max
      → c.sizeof_sensor_value < c.payload_max
      → (payload_get c env w).0.0 ≤ c.payload_max
  unfolding payload_get
  payload_get_size w soc_fits sensor_fits =
      let P : AppM (ℕ × List ℕ) → Type 0 = λ m. (m w).0.0 ≤ c.payload_max in
      if-holds P c.fuel_gauge
        (if-holds P (w.state.sat.payload_type == custom) (omega arith) (
          if-holds P (w.state.sat.payload_type == c.gauge_voltage)
            (with_reading_size _ c.sizeof_soc _ soc_fits)
            (with_reading_size _ c.sizeof_sensor_value _ sensor_fits)))
        (omega arith)

  nearest_packet_len_get_le : (n m : ℕ) → 13 ≤ m → n ≤ m → nearest_packet_len_get n ≤ m
  unfolding nearest_packet_len_get
  nearest_packet_len_get_le n m room h = ground arith

  -- What sat_transmit hands to hubble_sat_packet_get: a buffer of the payload's full length, and a
  -- packet's length that holds the payload and stays inside the buffer.
  abbrev pub FitsPacket : AppWorld → Type 0
  FitsPacket w =
      let p = (payload_get c env w).0 in
      let len = nearest_packet_len_get p.0 in
      (length p.1 ≡ c.payload_max) × IsPacketLen len × (p.0 ≤ len) × (len ≤ length p.1)

  pub payload_get-FitsPacket :
      (w : AppWorld)
      → 13 ≤ c.payload_max
      → w.state.sat.custom_size < c.payload_max
      → c.sizeof_soc < c.payload_max
      → c.sizeof_sensor_value < c.payload_max
      → FitsPacket w
  payload_get-FitsPacket w room custom_fits soc_fits sensor_fits =
      let p = (payload_get c env w).0 in
      let full = payload_get_in_bounds c env w custom_fits soc_fits sensor_fits in
      let size = payload_get_size w soc_fits sensor_fits in
      let fits = nearest_packet_len_get_fits p.0 in
      (full, fits.0, fits.1, omega (arith, full, nearest_packet_len_get_le p.0 _ room size))
