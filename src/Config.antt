-- ===== src/Config.antt =====
-- What the build fixes: Kconfig options, and constants of Zephyr, the C library and the Hubble SDK
-- that the source names and does not define.
use hubble_reference_thingy.Common.{ℕ, ◌+◌, ◌<◌, Bool, List}

pub record Config : Type 0 where
  -- CONFIG_APP_USE_PASS_PREDICTION, CONFIG_FUEL_GAUGE, CONFIG_APP_BLINK_LED
  pub pass_prediction : Bool
  pub fuel_gauge : Bool
  pub blink_led : Bool
  -- CONFIG_HUBBLE_DEVICE_KEY, the characters before the NUL
  pub device_key : List ℕ
  pub adv_frequency : ℕ  -- CONFIG_HUBBLE_SAMPLE_ADV_FREQUENCY
  pub key_size : ℕ  -- CONFIG_HUBBLE_KEY_SIZE
  pub payload_max : ℕ  -- HUBBLE_SAT_PAYLOAD_MAX
  pub hubble_ble_uuid : ℕ  -- HUBBLE_BLE_UUID
  -- enum sensor_channel: SENSOR_CHAN_AMBIENT_TEMP, _PRESS, _HUMIDITY, _GAUGE_VOLTAGE and _MAX
  pub ambient_temp : ℕ
  pub press : ℕ
  pub humidity : ℕ
  pub gauge_voltage : ℕ
  pub chan_max : ℕ
  -- sizeof(struct sensor_value) and of the state of charge
  pub sizeof_sensor_value : ℕ
  pub sizeof_soc : ℕ
  -- errno numbers
  pub eagain : ℕ
  pub einval : ℕ
  pub enoent : ℕ
  pub enospc : ℕ
  pub ealready : ℕ
  pub err_attr_len : ℕ  -- BT_ATT_ERR_INVALID_ATTRIBUTE_LEN

-- What the C library and Zephyr document of these numbers: an errno is positive, and
-- the channels of one enumeration differ. (Equal case labels would not compile.)
pub record IsConfig (c : Config) : Type 0 where
  pub eagain_pos : 0 < c.eagain
  pub einval_pos : 0 < c.einval
  pub enoent_pos : 0 < c.enoent
  pub enospc_pos : 0 < c.enospc
  pub ealready_pos : 0 < c.ealready
  pub attr_len_pos : 0 < c.err_attr_len
  pub temp_press : c.ambient_temp < c.press
  pub press_humidity : c.press < c.humidity
  pub humidity_gauge : c.humidity + 1 < c.gauge_voltage
  pub gauge_max : c.gauge_voltage < c.chan_max
  pub temp_pos : 0 < c.ambient_temp
