-- ===== src/App/Locks.antt =====
-- The radio's mutex, read off a trace of the application core's calls: whoever switches Bluetooth or
-- the network core must hold `radio_mutex` of app/src/main.c.
use hubble_reference_thingy.Common.{
  Bool, true, false, Option, none, some, List, [], ◌∷◌, if◌then◌else◌,
}
use hubble_reference_thingy.App.Calls.{
  Call, radio_mutex, k_mutex_lock, k_mutex_unlock, bt_enable, bt_disable, bt_le_adv_start,
  bt_le_adv_stop, nrf53_cpunet_enable, ipc_service_open_instance, ipc_service_register_endpoint,
  ipc_service_deregister_endpoint, ipc_service_close_instance, ipc_service_send,
  hubble_sat_packet_send,
}

-- the calls that use the radio, or the core that drives it
abbrev pub uses_radio : Call → Bool
uses_radio bt_enable = true
uses_radio bt_disable = true
uses_radio (bt_le_adv_start _ _ _ _) = true
uses_radio bt_le_adv_stop = true
uses_radio (nrf53_cpunet_enable _) = true
uses_radio ipc_service_open_instance = true
uses_radio ipc_service_register_endpoint = true
uses_radio ipc_service_deregister_endpoint = true
uses_radio ipc_service_close_instance = true
uses_radio (ipc_service_send _) = true
uses_radio (hubble_sat_packet_send _ _) = true
uses_radio _ = false

-- One call, with the mutex held or not: `none` is a fault, namely a second lock, an unlock of a mutex
-- that is not held, or a use of the radio without it.
abbrev pub radio_step : Call → Bool → Option Bool
radio_step (k_mutex_lock radio_mutex) false = some true
radio_step (k_mutex_lock radio_mutex) true = none
radio_step (k_mutex_unlock radio_mutex) true = some false
radio_step (k_mutex_unlock radio_mutex) false = none
radio_step c true = some true
radio_step c false = if uses_radio c then none else some false

-- Whether the mutex is held after the calls of a trace, if none of them was a fault.
abbrev pub radio : List Call → Option Bool
radio [] = some false
radio (c ∷ tr) = elim (radio tr) [ none ↦ none | some held ↦ radio_step c held ]
