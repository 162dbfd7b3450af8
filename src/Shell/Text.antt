-- ===== src/Shell/Text.antt =====
-- The C library's text functions that app/src/shell.c calls: strtol in base 10, and the comparisons.
use hubble_reference_thingy.Common.{
  ℕ, ◌+◌, ◌-◌, ◌*◌, ◌^◌, ◌%◌, min, Bool, true, false, ◌&&◌, ◌||◌, List, [], ◌∷◌, leb, ◌==◌,
  if◌then◌else◌,
}
use hubble_reference_thingy.Common.Int.{ℤ, pos, neg}

-- strncmp(s, t, sizeof(t)) == 0
unfoldable pub same_text : List ℕ → List ℕ → Bool
same_text [] [] = true
same_text (a ∷ s) (b ∷ t) = a == b && same_text s t
same_text _ _ = false

-- memcmp(t, s, strlen(t)) == 0; where `s` is shorter its NUL differs
unfoldable pub begins_with : List ℕ → List ℕ → Bool
begins_with [] s = true
begins_with (b ∷ t) [] = false
begins_with (b ∷ t) (a ∷ s) = b == a && begins_with t s

abbrev pub is_space : ℕ → Bool
is_space b = b == 32 || (leb 9 b && leb b 13)

abbrev pub is_digit : ℕ → Bool
is_digit b = leb 48 b && leb b 57

-- the digits in front, after those that gave `acc`
unfoldable pub digits_value : ℕ → List ℕ → ℕ
digits_value acc [] = acc
digits_value acc (b ∷ s) =
    let rest = digits_value (acc * 10 + (b - 48)) s in if is_digit b then rest else acc

-- LONG_MAX on the target, whose `long` has 32 bits
abbrev pub long_max : ℕ
long_max = 2 ^ 31 - 1

unfoldable pub signed_value : List ℕ → ℤ
unfolding digits_value
signed_value [] = pos 0
signed_value (b ∷ s) =
    if b == b'-'
    then neg (min (digits_value 0 s) (long_max + 1))
    else if b == b'+'
    then pos (min (digits_value 0 s) long_max)
    else pos (min (digits_value 0 (b ∷ s)) long_max)

-- strtol(s, NULL, 10)
unfoldable pub strtol : List ℕ → ℤ
unfolding signed_value
strtol [] = pos 0
strtol (b ∷ s) = let rest = strtol s in if is_space b then rest else signed_value (b ∷ s)

-- the conversion of a `long` to uint8_t
unfoldable pub to_u8 : ℤ → ℕ
to_u8 (pos n) = n % 256
to_u8 (ℤ.negsuc n) = 255 - n % 256
