-- ===== src/Main/Key.antt =====
-- The device key of app/src/main.c: crypto_key_set, _key_get, crypto_key_is_set.
use hubble_reference_thingy.Common.{
  ℕ, ◌+◌, ◌*◌, ◌/◌, Bool, false, ◌||◌, List, [], ◌∷◌, ◌==◌, not, if◌then◌else◌, length, take,
  memcpy,
}
use hubble_reference_thingy.Common.Int.{ℤ, pos, neg, is_zero, ◌==ℤ◌}
use hubble_reference_thingy.Common.Effects.{pure, ◌>>=◌, ◌>>◌, gets, modify, call_out, emit}
use hubble_reference_thingy.Config.{Config}
use hubble_reference_thingy.App.{AppEnv, AppM, App, key_sem, base64_decode, k_sem_give}
use hubble_reference_thingy.Drivers.Nvs.{hubble_key_id, hubble_nvs_read, hubble_nvs_write}

-- `ceil((double)CONFIG_HUBBLE_KEY_SIZE / 3) * 4`
abbrev pub key_text_len : Config → ℕ
key_text_len c = (c.key_size + 2) / 3 * 4

-- what a call that wrote these bytes leaves in `_hubble_key`
abbrev write_key : List ℕ → AppM (Unit {0})
write_key bytes = modify (λ a. record a { hubble_key = memcpy a.hubble_key 0 bytes })

-- memcmp with zeros, over the first `size` bytes
unfoldable pub any_nonzero : List ℕ → Bool
any_nonzero [] = false
any_nonzero (b ∷ bs) = not (b == 0) || any_nonzero bs

unfoldable pub crypto_key_is_set : Config → App → Bool
unfolding any_nonzero
crypto_key_is_set c a = any_nonzero (take c.key_size a.hubble_key)

module _ (c : Config) (env : AppEnv) where
  unfoldable pub crypto_key_set : List ℕ → AppM ℤ
  unfolding hubble_nvs_write
  crypto_key_set key = if not (length key == key_text_len c) then pure (neg c.einval) else do
    r ← call_out env (base64_decode key)
    write_key r.1
    (if is_zero r.0
        then (do
          bytes ← gets (λ a. take c.key_size a.hubble_key)
          hubble_nvs_write env hubble_key_id bytes
          emit (k_sem_give key_sem)
          pure r.0)
        else pure r.0)

  -- _key_get
  unfoldable pub key_get : AppM ℤ
  unfolding hubble_nvs_read
  key_get = do
    r ← hubble_nvs_read env hubble_key_id c.key_size
    write_key r.1
    pure (if r.0 ==ℤ pos c.key_size then pos 0 else neg c.enoent)
