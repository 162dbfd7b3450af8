-- ===== src/Shell/Numbers.antt =====
-- strtol as _cmd_retransmission of app/src/shell.c uses it, and what that command then sets.
use hubble_reference_thingy.Common.{
  ℕ, ◌+◌, ◌-◌, ◌*◌, ◌%◌, ◌≤◌, ◌<◌, ◌≡◌, min, refl, ap, ◌∙◌, true, false, List, [], ◌∷◌, ltb,
  le→ltb-false, if◌then◌else◌, arith, Bool-cases, inl, inr, ◌==◌,
}
use hubble_reference_thingy.Common.Int.{ℤ, pos, neg}
use hubble_reference_thingy.Config.{Config}
use hubble_reference_thingy.App.{App, AppEnv, AppWorld, with_sat, shell_mutex, k_mutex_lock}
use hubble_reference_thingy.Sat.Payload.{sat_retransmission_set}
use hubble_reference_thingy.Shell.Text.{
  is_digit, is_space, digits_value, signed_value, strtol, to_u8, long_max,
}
use hubble_reference_thingy.Shell.Commands.{cmd_retransmission}

-- decimal digits, the first one first: each below ten
pub data AreDigits : List ℕ → Type 0 where
  no_digit : AreDigits []
  digit : {d : ℕ} {ds : List ℕ} → d < 10 → AreDigits ds → AreDigits (d ∷ ds)

-- their text, and the number that they are, after `acc`
abbrev pub text_of : List ℕ → List ℕ
text_of [] = []
text_of (d ∷ ds) = (48 + d) ∷ text_of ds

abbrev pub number_after : ℕ → List ℕ → ℕ
number_after acc [] = acc
number_after acc (d ∷ ds) = number_after (acc * 10 + d) ds

digits_value-text_of :
    (ds : List ℕ) (acc : ℕ) → AreDigits ds → digits_value acc (text_of ds) ≡ number_after acc ds
unfolding digits_value
digits_value-text_of [] acc h = refl
digits_value-text_of (d ∷ ds) acc (digit lt h) =
    let yes_digit : is_digit (48 + d) ≡ true = ground arith in
    let e : (48 + d) - 48 ≡ d = omega arith in
    rw (yes_digit, e) (digits_value-text_of ds (acc * 10 + d) h)

-- strtol reads back the decimal text of any number; what is beyond LONG_MAX becomes LONG_MAX.
strtol-text_of :
    (d : ℕ) (ds : List ℕ)
    → AreDigits (d ∷ ds)
    → strtol (text_of (d ∷ ds)) ≡ pos (min (number_after 0 (d ∷ ds)) long_max)
unfolding strtol signed_value
strtol-text_of d ds (digit lt h) =
    let no_space : is_space (48 + d) ≡ false = ground arith in
    let no_minus : (48 + d == 45) ≡ false = ground arith in
    let no_plus : (48 + d == 43) ≡ false = ground arith in
    let yes_digit : is_digit (48 + d) ≡ true = ground arith in
    let e : (48 + d) - 48 ≡ d = omega arith in
    rw (no_space, no_minus, no_plus, yes_digit, e)
      (ap (λ n. pos (min n long_max)) (digits_value-text_of ds (0 + d) h))

module _ (c : Config) (env : AppEnv) where
  abbrev retransmission_result : ℕ → AppWorld → ℤ × App
  retransmission_result freq w = if ltb 10 freq then (neg c.einval, w.state) else (
    pos 0,
    with_sat (λ s. record s { retransmission_s = freq })
        (env.others w.trace (k_mutex_lock shell_mutex) w.state),
  )

  -- The command on the text of a number `n` up to LONG_MAX goes by `n % 256`: if that is 10 at most it
  -- becomes the interval and the result is 0; else the result is -EINVAL and nothing changes. So 266 is
  -- accepted, as 10.
  pub cmd_retransmission-text_of :
      (name : List ℕ) (d : ℕ) (ds : List ℕ) (w : AppWorld)
      → AreDigits (d ∷ ds)
      → number_after 0 (d ∷ ds) ≤ long_max
      → let r = cmd_retransmission c env (name ∷ text_of (d ∷ ds) ∷ []) w in
        (r.0, r.1.state) ≡ retransmission_result (number_after 0 (d ∷ ds) % 256) w
  unfolding cmd_retransmission sat_retransmission_set to_u8
  cmd_retransmission-text_of name d ds w h small =
      let e : strtol (text_of (d ∷ ds)) ≡ pos (number_after 0 (d ∷ ds)) =
        strtol-text_of d ds h ∙ ap pos (omega (arith, small)) in
      let freq = number_after 0 (d ∷ ds) % 256 in
      let no_low : ltb freq 0 ≡ false = le→ltb-false freq 0 (omega arith) in
      elim (Bool-cases (ltb 10 freq)) [
        | inl high ↦ rw (e, no_low, high) refl
        | inr ok ↦ rw (e, no_low, ok) refl
      ]
