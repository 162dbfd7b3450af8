-- ===== src/Main/Unset.antt =====
-- When the device waits for its key: crypto_key_is_set of app/src/main.c.
use hubble_reference_thingy.Common.{
  ℕ, zero, suc, ◌≡◌, refl, ap, ◌∙◌, ◌↔◌, false, List, [], ◌∷◌, length, take, take-all, replicate,
  arith,
}
use hubble_reference_thingy.Config.{Config}
use hubble_reference_thingy.App.{App}
use hubble_reference_thingy.Main.Key.{any_nonzero, crypto_key_is_set}

any_nonzero-replicate : (n : ℕ) → any_nonzero (replicate n 0) ≡ false
unfolding any_nonzero
any_nonzero-replicate zero = refl
any_nonzero-replicate (suc n) = any_nonzero-replicate n

any_nonzero-zeros : (bs : List ℕ) → any_nonzero bs ≡ false → bs ≡ replicate (length bs) 0
unfolding any_nonzero
any_nonzero-zeros [] h = refl
any_nonzero-zeros (b ∷ bs) h =
    let head : b ≡ 0 = ground (arith, h) in
    let rest : any_nonzero bs ≡ false = ground (arith, h) in
    rw head (ap (λ l. 0 ∷ l) (any_nonzero-zeros bs rest))

-- The key counts as missing exactly when all of its bytes are zero.
pub crypto_key_is_set_iff :
    (c : Config) (a : App)
    → length a.hubble_key ≡ c.key_size
    → (crypto_key_is_set c a ≡ false) ↔ (a.hubble_key ≡ replicate c.key_size 0)
unfolding crypto_key_is_set
crypto_key_is_set_iff c a n =
    let all : take c.key_size a.hubble_key ≡ a.hubble_key = take-all c.key_size a.hubble_key n in
    rw all (
      λ h. any_nonzero-zeros a.hubble_key h ∙ ap (λ k. replicate k 0) n,
      λ e. rw e (any_nonzero-replicate c.key_size),
    )
