-- ===== src/Drivers/Nvs.antt =====
-- Non-volatile storage: app/src/nvs.c. The file system is Zephyr's.
use hubble_reference_thingy.Common.{ℕ, ◌/◌, List, if◌then◌else◌, not}
use hubble_reference_thingy.Common.Int.{ℤ, pos, negsuc, is_zero}
use hubble_reference_thingy.Common.Effects.{
  pure, ◌>>=◌, ◌>>◌, call, call_all, call_out, emit, modify,
}
use hubble_reference_thingy.App.{
  AppEnv, AppM, u16, nvs_flash, device_is_ready, flash_get_page_info, nvs_mount, nvs_read,
  nvs_write, nvs_delete,
}

-- HUBBLE_KEY_ID of enum hubble_nvs_id
abbrev pub hubble_key_id : ℕ
hubble_key_id = 0

module _ (env : AppEnv) where
  -- _nvs_init, over a partition of `size` bytes. The page's size is what the flash driver
  -- writes; the sectors' size and number are uint16_t.
  unfoldable pub nvs_init : ℕ → AppM ℤ
  nvs_init size = do
    ready ← call env (device_is_ready nvs_flash)
    (if is_zero ready then pure (negsuc 0) else do
      info ← call_all env flash_get_page_info
      let page = u16 info.1
      (if not (is_zero info.0) then pure (negsuc 0) else do
        modify (λ a. record a {
          nvs = record { sector_size = page; sector_count = u16 (size / page) };
        })
        err ← call env nvs_mount
        (if is_zero err then pure (pos 0) else pure (negsuc 0))))

  -- the result of nvs_read, and the bytes read
  unfoldable pub hubble_nvs_read : ℕ → ℕ → AppM (ℤ × List ℕ)
  hubble_nvs_read id len = call_out env (nvs_read id len)

  unfoldable pub hubble_nvs_write : ℕ → List ℕ → AppM ℤ
  hubble_nvs_write id bytes = do emit (nvs_delete id); call env (nvs_write id bytes)
