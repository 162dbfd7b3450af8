-- ===== src/Drivers/Partition.antt =====
-- How _nvs_init of app/src/nvs.c lays out the storage partition.
use native.Mathlib.Omega.{div_any}
use native.Mathlib.Nat.{mod-lt}
use hubble_reference_thingy.Common.{ℕ, ◌+◌, ◌*◌, ◌/◌, ◌^◌, ◌≤◌, ◌<◌, ◌≡◌, ◌∷◌, refl, arith}
use hubble_reference_thingy.Common.Int.{pos}
use hubble_reference_thingy.App.{
  AppEnv, AppWorld, u16, nvs_flash, device_is_ready, flash_get_page_info,
}
use hubble_reference_thingy.Drivers.Nvs.{nvs_init}

nvs_init_layout :
    (env : AppEnv) (size : ℕ) (w : AppWorld)
    → (nvs_init env size w).0 ≡ pos 0
    → let page = env.val (device_is_ready nvs_flash ∷ w.trace) flash_get_page_info in
      (nvs_init env size w).1.state.nvs
      ≡ record { sector_size = u16 page; sector_count = u16 (size / u16 page) }
unfolding nvs_init
nvs_init_layout env size w ok = ground arith

-- Where the storage was mounted, the flash's pages are not empty, and their size and number fit 16 bits, a sector is a page, and the
-- sectors are as many as the partition has room for.
pub nvs_init_fits :
    (env : AppEnv) (size : ℕ) (w : AppWorld)
    → 0 < env.val (device_is_ready nvs_flash ∷ w.trace) flash_get_page_info
    → env.val (device_is_ready nvs_flash ∷ w.trace) flash_get_page_info < 2 ^ 16
    → size / env.val (device_is_ready nvs_flash ∷ w.trace) flash_get_page_info < 2 ^ 16
    → (nvs_init env size w).0 ≡ pos 0
    → let n = (nvs_init env size w).1.state.nvs in
      (n.sector_size ≡ env.val (device_is_ready nvs_flash ∷ w.trace) flash_get_page_info)
      × (n.sector_size * n.sector_count ≤ size)
      × (size < n.sector_size * n.sector_count + n.sector_size)
nvs_init_fits env size w h fits few ok =
    let page = env.val (device_is_ready nvs_flash ∷ w.trace) flash_get_page_info in
    let whole = div_any size page in
    let rest = mod-lt size {m = page} h in
    let page_fits : u16 page ≡ page = omega (arith, fits) in
    let count_fits : u16 (size / page) ≡ size / page = omega (arith, few) in
    rw (nvs_init_layout env size w ok, page_fits, count_fits)
      (refl, omega (arith, whole), omega (arith, whole, rest))
