-- ===== src/App/Examples.antt =====
-- A build, a device just after its start, and surroundings that answer, for the tests.
use hubble_reference_thingy.Common.{
  ℕ, ◌+◌, ◌*◌, true, false, List, [], ◌∷◌, replicate, take, min, ltb, if◌then◌else◌, arith,
}
use hubble_reference_thingy.Common.Int.{ℤ, pos, negsuc}
use hubble_reference_thingy.Config.{Config, IsConfig}
use hubble_reference_thingy.App.Calls.{
  Call, k_sleep, k_uptime_get, hubble_time_get, device_is_ready, hubble_sat_packet_get,
  hubble_sat_next_pass_get, hubble_ble_advertise_get, flash_get_page_info, uuid16_all, svc_data16,
  constant,
}
use hubble_reference_thingy.App.State.{App, AppEnv, AppWorld, Sat}

abbrev pub table_config : Config
table_config = record {
  pass_prediction = false;
  fuel_gauge = true;
  blink_led = true;
  device_key = [];
  adv_frequency = 300;
  key_size = 16;
  payload_max = 13;
  hubble_ble_uuid = 0xFCA6;
  ambient_temp = 13;
  press = 14;
  humidity = 16;
  gauge_voltage = 30;
  chan_max = 60;
  sizeof_sensor_value = 8;
  sizeof_soc = 1;
  eagain = 11;
  einval = 22;
  enoent = 2;
  enospc = 28;
  ealready = 120;
  err_attr_len = 13;
}

abbrev pub predicted_config : Config
predicted_config = record table_config { pass_prediction = true }

pub table_config-IsConfig : IsConfig table_config
table_config-IsConfig = record {
  eagain_pos = omega arith;
  einval_pos = omega arith;
  enoent_pos = omega arith;
  enospc_pos = omega arith;
  ealready_pos = omega arith;
  attr_len_pos = omega arith;
  temp_press = omega arith;
  press_humidity = omega arith;
  humidity_gauge = omega arith;
  gauge_max = omega arith;
  temp_pos = omega arith;
}

-- 2001-09-09, in milliseconds
abbrev pub now_ms : ℕ
now_ms = 1000000000000

-- the milliseconds that a trace has slept
abbrev pub slept : List Call → ℕ
slept [] = 0
slept (k_sleep s ∷ tr) = slept tr + s * 1000
slept (_ ∷ tr) = slept tr

abbrev pub answer : List Call → Call → ℤ
answer tr (device_is_ready _) = pos 1
-- no pass is found for the far future
answer tr (hubble_sat_next_pass_get t _ _) = if ltb t 9000000000000000000 then pos 0 else negsuc 0
answer tr _ = pos 0

abbrev pub number : List Call → Call → ℕ
number tr k_uptime_get = slept tr
number tr hubble_time_get = now_ms
number tr flash_get_page_info = 4096
number tr (hubble_ble_advertise_get len) = min len 4
number tr _ = 0

abbrev pub bytes : List Call → Call → List ℕ
bytes tr (hubble_sat_packet_get payload _) = payload
bytes tr (hubble_ble_advertise_get len) = take len (0xA6 ∷ 0xFC ∷ 1 ∷ 2 ∷ [])
-- a pass that begins at the time asked for, and lasts two milliseconds
bytes tr (hubble_sat_next_pass_get t _ _) =
    if ltb t 9000000000000000000 then t ∷ 2 ∷ [] else 0 ∷ 0 ∷ []
bytes tr _ = []

abbrev pub calm : AppEnv
calm = record { ret = answer; val = number; out = bytes; others = λ tr k a. a }

abbrev pub fresh_sat : Sat
fresh_sat = record {
  power = pos 0;
  retransmission_s = 5;
  custom_buffer = replicate 13 0;
  custom_size = 0;
  payload_type = 17;
  transmitting = false;
  next_pass = record { start = 0; duration = 0 };
  lat = replicate 8 0;
  lon = replicate 8 0;
  passes = replicate 300 (record { timestamp = 0; duration = 0 });
  idx = 0;
  count = 0;
}

abbrev pub fresh : App
fresh = record {
  sat = fresh_sat;
  ble = record {
    off_by_user = false;
    ad0 = record { type = uuid16_all; bytes = constant (0xA7 ∷ 0xFC ∷ []) };
    ad1 = record { type = svc_data16; bytes = constant (0xA7 ∷ 0xFC ∷ []) };
    ad_buffer = replicate 31 0;
  };
  nvs = record { sector_size = 0; sector_count = 0 };
  hubble_key = replicate 16 0;
  utc_time = 0;
}

abbrev pub started : AppWorld
started = record { state = fresh; trace = [] }
