-- ===== src/Sat/Payload.antt =====
-- What is transmitted: sat_payload_set and the first half of sat_transmit in app/src/sat_board.c.
use hubble_reference_thingy.Common.{
  ℕ, ◌+◌, List, [], ◌∷◌, ◌++◌, ltb, ◌==◌, if◌then◌else◌, take, set, replicate, memcpy,
}
use hubble_reference_thingy.Common.Int.{ℤ, pos, is_zero}
use hubble_reference_thingy.Common.Effects.{pure, ◌>>=◌, gets, call_out}
use hubble_reference_thingy.Config.{Config}
use hubble_reference_thingy.App.{AppEnv, AppM, Sat, u8, fuel_gauge_get_props, state_of_charge}
use hubble_reference_thingy.Drivers.Sensor.{sensor_data_get}

-- enum sat_payload_type of app/src/app.h, whose values are sensor channels but for two
abbrev pub custom : ℕ
custom = 0

abbrev invalid : Config → ℕ
invalid c = c.humidity + 1

-- sat_retransmission_set and sat_power_set
unfoldable pub sat_retransmission_set : ℕ → Sat → ℤ × Sat
sat_retransmission_set retransmission_s s =
    (pos 0, record s { retransmission_s = retransmission_s })

unfoldable sat_power_set : ℤ → Sat → ℤ × Sat
sat_power_set power s = (pos 0, record s { power = power })

-- exactly `n` bytes, as a memcpy of `n` bytes reads them
abbrev pub exactly : ℕ → List ℕ → List ℕ
exactly n bytes = take n (bytes ++ replicate n 0)

-- sat_payload_set, with the `len` bytes at `data`
unfoldable pub sat_payload_set : ℕ → List ℕ → ℕ → Sat → ℤ × Sat
sat_payload_set type bytes len s = (
  pos 0,
  if len == 0 then record s { payload_type = type } else record s {
    payload_type = type;
    custom_buffer = memcpy s.custom_buffer 0 (exactly len bytes);
    custom_size = u8 len;
  },
)

-- _channel_to_hubble
unfoldable pub channel_to_hubble : Config → ℕ → ℕ
channel_to_hubble c channel =
    if channel == c.ambient_temp
    then 1
    else if channel == c.press
    then 2
    else if channel == c.humidity
    then 3
    else if channel == c.gauge_voltage
    then 4
    else 0

-- _nearest_packet_len_get
unfoldable pub nearest_packet_len_get : ℕ → ℕ
nearest_packet_len_get len =
    if len == 0
    then 0
    else if ltb len 4
    then 4
    else if ltb len 9
    then 9
    else if ltb len 13
    then 13
    else len

module _ (c : Config) (env : AppEnv) where
  -- `pkt_buffer` with the channel's number, and the reading behind it
  abbrev pub tagged : ℕ → List ℕ
  tagged type = set (replicate c.payload_max 0) 0 (channel_to_hubble c type)

  abbrev pub with_reading : ℕ → ℕ → ℤ × List ℕ → ℕ × List ℕ
  with_reading type size (ret, bytes) =
      if is_zero ret
      then (size + 1, memcpy (tagged type) 1 (exactly size bytes))
      else (0, tagged type)

  -- `pkt_len` and `pkt_buffer` of sat_transmit, before the length is rounded
  unfoldable pub payload_get : AppM (ℕ × List ℕ)
  unfolding channel_to_hubble sensor_data_get
  payload_get = do
    s ← gets (λ a. a.sat)
    (if c.fuel_gauge
        then (if s.payload_type == custom
            then pure (c.payload_max, memcpy (tagged custom) 1 (take s.custom_size s.custom_buffer))
            else if s.payload_type == c.gauge_voltage
            then (do
              r ← call_out env (fuel_gauge_get_props (state_of_charge ∷ []))
              pure (with_reading s.payload_type c.sizeof_soc r))
            else (do
              r ← sensor_data_get c env s.payload_type
              pure (with_reading s.payload_type c.sizeof_sensor_value r)))
        else pure (0, replicate c.payload_max 0))
