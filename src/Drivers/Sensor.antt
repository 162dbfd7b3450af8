-- ===== src/Drivers/Sensor.antt =====
-- app/src/sensor.c: one reading of the BME680.
use hubble_reference_thingy.Common.{ℕ, List, [], if◌then◌else◌}
use hubble_reference_thingy.Common.Int.{ℤ, neg, is_zero}
use hubble_reference_thingy.Common.Effects.{pure, ◌>>=◌, call, call_out}
use hubble_reference_thingy.Config.{Config}
use hubble_reference_thingy.App.{
  AppEnv, AppM, bme680, device_is_ready, sensor_sample_fetch, sensor_channel_get,
}

-- sensor_data_get: the result, and the bytes written to `data`
unfoldable pub sensor_data_get : Config → AppEnv → ℕ → AppM (ℤ × List ℕ)
sensor_data_get c env channel = do
  ready ← call env (device_is_ready bme680)
  (if is_zero ready then pure (neg c.eagain, []) else do
    err ← call env sensor_sample_fetch
    (if is_zero err then call_out env (sensor_channel_get channel) else pure (err, [])))
