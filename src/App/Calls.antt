-- ===== src/App/Calls.antt =====
-- The calls of the application core that leave its sources, with their arguments: kernel objects,
-- Bluetooth, the Hubble SDK, IPC, drivers, the volatile mark in shared memory, the shell's output.
use hubble_reference_thingy.Common.{ℕ, Bool, List}
use hubble_reference_thingy.Common.Int.{ℤ}
use hubble_reference_thingy.SatIpc.{Message}

-- the kernel objects that the sources define
pub data Sem : Type 0 where
  timer_sem init_sem key_sem bound_sem sat_sem : Sem

pub data Mutex : Type 0 where
  radio_mutex shell_mutex : Mutex

pub data Timer : Type 0 where
  sat_timer ble_timer led_timer : Timer

pub data Work : Type 0 where
  ble_work provisioning_work button_work : Work

-- how long a take may wait
pub data Timeout : Type 0 where
  forever : Timeout
  seconds : ℕ → Timeout

-- the enumeration that hubble_sat_packet_send takes
pub data Reliability : Type 0 where
  reliability_none reliability_normal : Reliability

pub data AdType : Type 0 where
  uuid16_all svc_data16 : AdType

-- where a `struct bt_data` points: a constant, or the first bytes of app_ad_buffer
pub data AdBytes : Type 0 where
  constant : List ℕ → AdBytes
  ad_buffer : ℕ → AdBytes

pub record BtData : Type 0 where
  pub type : AdType
  pub bytes : AdBytes

pub data Device : Type 0 where
  bme680 nvs_flash led_gpio button_gpio : Device

pub data GpioFlag : Type 0 where
  output_active output_inactive input : GpioFlag

pub data GaugeProp : Type 0 where
  state_of_charge voltage : GaugeProp

-- the lines of the shell, with the values that they show
pub data Line : Type 0 where
  needs_0_to_10 key_usage invalid_key ble_usage : Line
  -- with the word that was not understood
  invalid_payload invalid_ble : List ℕ → Line
  -- the sensor's name, with the bytes of its value or the error
  sensor_value : List ℕ → List ℕ → Line
  sensor_error : List ℕ → ℤ → Line
  waiting_time waiting_key beaconing transmitting next_scheduled : Line
  -- a time in seconds, as the date that gmtime_r gives
  scheduled_at time_is : ℕ → Line
  battery : List ℕ → Line

pub data Call : Type 0 where
  k_sem_give : Sem → Call
  k_sem_take : Sem → Timeout → Call
  k_mutex_lock k_mutex_unlock : Mutex → Call
  -- the timer, its first expiry and its period in seconds (0: none)
  k_timer_start : Timer → ℕ → ℕ → Call
  k_timer_stop : Timer → Call
  k_sleep : ℕ → Call
  k_work_submit k_work_init : Work → Call
  k_uptime_get : Call
  bt_enable bt_disable bt_is_ready bt_le_adv_stop : Call
  -- whether it is connectable, the advertisement, whether the scan response names the device
  bt_le_adv_start : Bool → BtData → BtData → Bool → Call
  hubble_time_get : Call
  hubble_time_set : ℕ → Call
  hubble_init : ℕ → List ℕ → Call
  hubble_ble_advertise_get : ℕ → Call
  hubble_sat_satellites_set : Call
  hubble_sat_packet_get : List ℕ → ℕ → Call
  hubble_sat_packet_send : List ℕ → Reliability → Call
  -- the time, and the latitude and the longitude as the bytes of two doubles
  hubble_sat_next_pass_get : ℕ → List ℕ → List ℕ → Call
  ipc_service_open_instance ipc_service_register_endpoint : Call
  ipc_service_deregister_endpoint ipc_service_close_instance : Call
  ipc_service_send : Message → Call
  nrf53_cpunet_enable : Bool → Call
  -- _CPUNET_STACK_MARK: 1 for Bluetooth, 0 for the satellite stack
  stack_mark : ℕ → Call
  device_is_ready : Device → Call
  sensor_sample_fetch : Call
  sensor_channel_get : ℕ → Call
  fuel_gauge_get_props : List GaugeProp → Call
  gpio_pin_configure : Device → GpioFlag → Call
  gpio_pin_toggle gpio_interrupt_to_active gpio_init_callback gpio_add_callback : Device → Call
  flash_get_page_info nvs_mount : Call
  nvs_read : ℕ → ℕ → Call
  nvs_write : ℕ → List ℕ → Call
  nvs_delete : ℕ → Call
  base64_decode : List ℕ → Call
  shell_print : Line → Call
