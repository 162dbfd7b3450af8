-- ===== src/Main/Network.antt =====
-- Starting and stopping the network core for the satellite stack: _sat_enable and _sat_disable of
-- app/src/main.c.
use hubble_reference_thingy.Common.{ℕ, true, false, ◌&&◌, not, if◌then◌else◌}
use hubble_reference_thingy.Common.Int.{ℤ, pos, neg, is_zero, is_neg, ◌==ℤ◌}
use hubble_reference_thingy.Common.Effects.{pure, ◌>>=◌, ◌>>◌, call, block, emit}
use hubble_reference_thingy.Config.{Config}
use hubble_reference_thingy.App.{
  AppEnv, AppM, bound_sem, forever, stack_mark, nrf53_cpunet_enable, ipc_service_open_instance,
  ipc_service_register_endpoint, ipc_service_deregister_endpoint, ipc_service_close_instance,
  k_sem_take,
}
use hubble_reference_thingy.SatIpc.{init, base}
use hubble_reference_thingy.Ipc.{ipc_send}

-- _CPUNET_STACK_MARK: which stack the network core starts
abbrev pub ble_stack : ℕ
ble_stack = 1

abbrev pub sat_stack : ℕ
sat_stack = 0

unfoldable pub sat_enable : Config → AppEnv → AppM ℤ
unfolding ipc_send
sat_enable c env = do
  emit (stack_mark sat_stack)
  emit (nrf53_cpunet_enable true)
  err ← call env ipc_service_open_instance
  (if is_neg err && not (err ==ℤ neg c.ealready) then pure err else do
    err ← call env ipc_service_register_endpoint
    (if is_neg err
        then pure err
        else do block env (k_sem_take bound_sem forever); ipc_send env (base init)))

unfoldable pub sat_disable : AppEnv → AppM ℤ
sat_disable env = do
  err ← call env ipc_service_deregister_endpoint
  (if not (is_zero err) then pure err else do
    err ← call env ipc_service_close_instance
    (if not (is_zero err) then pure err else do emit (nrf53_cpunet_enable false); pure (pos 0)))
