-- ===== src/Main/Stored.antt =====
-- The device key of app/src/main.c over a restart: crypto_key_set, hubble_nvs_write, _key_get.
use hubble_reference_thingy.Common.{
  ℕ, ◌+◌, ◌≤◌, ◌≡◌, ◌≢◌, refl, ap, ◌∙◌, true, false, not, ◌&&◌, Option, none, some, List, [], ◌∷◌,
  ◌++◌, ◌==◌, if◌then◌else◌, arith, append-nil, take-all, drop-all, take-append_length,
  drop-append_length, length, take, drop, memcpy, length-memcpy,
}
use hubble_reference_thingy.Common.Int.{pos, neg, is_zero, is_neg, is_zero-neg, pos→==ℤ}
use hubble_reference_thingy.Config.{Config, IsConfig}
use hubble_reference_thingy.App.{
  App, AppEnv, AppWorld, Call, key_sem, base64_decode, k_sem_give, nvs_read, nvs_write, nvs_delete,
}
use hubble_reference_thingy.Drivers.Nvs.{hubble_key_id, hubble_nvs_read}
use hubble_reference_thingy.Main.Key.{key_text_len, crypto_key_set, key_get}

-- What the storage holds under an id after a trace, given what the calls returned: a write or a delete
-- that returns a negative number has failed, and changes nothing.
abbrev pub stored : AppEnv → ℕ → List Call → Option (List ℕ)
stored env id [] = none
stored env id (nvs_write i bytes ∷ tr) =
    if i == id && not (is_neg (env.ret tr (nvs_write i bytes)))
    then some bytes
    else stored env id tr
stored env id (nvs_delete i ∷ tr) =
    if i == id && not (is_neg (env.ret tr (nvs_delete i))) then none else stored env id tr
stored env id (_ ∷ tr) = stored env id tr

-- What Zephyr documents of nvs_read: it gives what the last write that succeeded has stored, and its
-- length.
pub record IsNvs (env : AppEnv) : Type 0 where
  pub reads :
      (tr : List Call) (id len : ℕ) (bytes : List ℕ)
      → stored env id tr ≡ some bytes
      → length bytes ≡ len
      → (env.ret tr (nvs_read id len) ≡ pos len) × (env.out tr (nvs_read id len) ≡ bytes)

-- What base64_decode documents: it writes no more than the destination's size.
pub record DecodesWithin (env : AppEnv) (size : ℕ) : Type 0 where
  pub within : (tr : List Call) (key : List ℕ) → length (env.out tr (base64_decode key)) ≤ size

-- a restart: any globals, and what happened before
abbrev pub restart : App → List Call → AppWorld
restart a tr = record { state = a; trace = tr }

module _ (c : Config) (env : AppEnv) where
  -- the bytes that a success leaves in `_hubble_key`
  abbrev new_key : List ℕ → AppWorld → List ℕ
  new_key key w = memcpy w.state.hubble_key 0 (env.out w.trace (base64_decode key))

  record Succeeds (key : List ℕ) (w w' : AppWorld) : Type 0 where
    calls :
        w'.trace
        ≡ k_sem_give key_sem
          ∷ nvs_write hubble_key_id (take c.key_size w'.state.hubble_key)
          ∷ nvs_delete hubble_key_id
          ∷ base64_decode key
          ∷ w.trace
    key_is : w'.state.hubble_key ≡ new_key key w

  crypto_key_set-Succeeds :
      (key : List ℕ) (w : AppWorld)
      → IsConfig c
      → (crypto_key_set c env key w).0 ≡ pos 0
      → Succeeds key w (crypto_key_set c env key w).1
  unfolding crypto_key_set
  crypto_key_set-Succeeds key w i h =
      let bad = is_zero-neg c.einval i.einval_pos in
      let good : is_zero (crypto_key_set c env key w).0 ≡ true = ap is_zero h in
      record { calls = ground (arith, bad, good); key_is = ground (arith, bad, good) }

  -- whether the nvs_write of a key that is accepted succeeds, whose result the code does not look at
  abbrev pub IsWritten : List ℕ → AppWorld → Type 0
  IsWritten key w =
      let bytes = take c.key_size (crypto_key_set c env key w).1.state.hubble_key in
      is_neg (
        env.ret (nvs_delete hubble_key_id ∷ base64_decode key ∷ w.trace)
          (nvs_write hubble_key_id bytes))
      ≡ false

  -- A key that crypto_key_set accepted, and whose write to the storage succeeded, is there after a
  -- restart: _key_get then finds it in the storage, returns 0, and leaves the same key in
  -- `_hubble_key`. The storage is taken to give what was last written with success, the decoder to write no more than the key's size, and `_hubble_key` to have
  -- that size; errno numbers are positive.
  pub key_get-crypto_key_set :
      (key : List ℕ) (w : AppWorld) (a : App)
      → IsConfig c
      → IsNvs env
      → DecodesWithin env c.key_size
      → length w.state.hubble_key ≡ c.key_size
      → length a.hubble_key ≡ c.key_size
      → (crypto_key_set c env key w).0 ≡ pos 0
      → IsWritten key w
      → let w' = (crypto_key_set c env key w).1 in
        let r = key_get c env (restart a w'.trace) in
        (r.0 ≡ pos 0) × (r.1.state.hubble_key ≡ w'.state.hubble_key)
  unfolding key_get hubble_nvs_read
  key_get-crypto_key_set key w a i nvs within size size' h written =
      let done = crypto_key_set-Succeeds key w i h in
      let w' : AppWorld = (crypto_key_set c env key w).1 in
      let bytes = w'.state.hubble_key in
      let len : length bytes ≡ c.key_size =
        ap length done.key_is
        ∙ length-memcpy w.state.hubble_key 0 (env.out w.trace (base64_decode key))
            (omega (arith, within.within w.trace key, size))
        ∙ size in
      let all : take c.key_size bytes ≡ bytes = take-all c.key_size bytes len in
      let kept : stored env hubble_key_id w'.trace ≡ some bytes =
        ap (stored env hubble_key_id) done.calls ∙ rw written (ap some all) in
      let found = nvs.reads w'.trace hubble_key_id c.key_size bytes kept len in
      let equal = pos→==ℤ _ c.key_size found.0 in
      let whole : memcpy a.hubble_key 0 bytes ≡ bytes =
        ap (λ l. bytes ++ l) (drop-all (0 + length bytes) a.hubble_key (omega (arith, len, size')))
        ∙ append-nil bytes in
      (rw equal refl, ap (λ l. memcpy a.hubble_key 0 l) found.1 ∙ whole)

  -- What an accepted key leaves in `_hubble_key`: the decoded bytes, and behind them, where the
  -- text decodes to fewer bytes than a key has, the end of the key before. The result, 0, does not
  -- tell. Errno numbers are taken to be positive.
  pub crypto_key_set_keeps_tail :
      (key : List ℕ) (w : AppWorld)
      → IsConfig c
      → (crypto_key_set c env key w).0 ≡ pos 0
      → let decoded = env.out w.trace (base64_decode key) in
        let now = (crypto_key_set c env key w).1.state.hubble_key in
        (take (length decoded) now ≡ decoded)
        × (drop (length decoded) now ≡ drop (length decoded) w.state.hubble_key)
  crypto_key_set_keeps_tail key w i h =
      let done = crypto_key_set-Succeeds key w i h in
      let decoded = env.out w.trace (base64_decode key) in
      let tail : drop (0 + length decoded) w.state.hubble_key
          ≡ drop (length decoded) w.state.hubble_key =
        ap (λ n. drop n w.state.hubble_key) (omega arith) in
      (
        ap (take (length decoded)) done.key_is ∙ take-append_length decoded _,
        ap (drop (length decoded)) done.key_is ∙ drop-append_length decoded _ ∙ tail,
      )

  -- A text of the wrong length is refused with -EINVAL, before anything is decoded or stored.
  crypto_key_set_refuses :
      (key : List ℕ) (w : AppWorld)
      → length key ≢ key_text_len c
      → crypto_key_set c env key w ≡ (neg c.einval, w)
  unfolding crypto_key_set
  crypto_key_set_refuses key w wrong = ground arith
