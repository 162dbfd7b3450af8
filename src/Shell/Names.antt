-- ===== src/Shell/Names.antt =====
-- The words of app/src/shell.c: _sensor_channel_get against a table of names.
use mathlib.Core.List.{List-discrete}
use native.Mathlib.Decide.{ℕ_discrete}
use hubble_reference_thingy.Common.{
  ℕ, ◌≡◌, refl, ap, ◌∙◌, Bool, true, false, List, [], ◌∷◌, if◌then◌else◌, arith,
}
use hubble_reference_thingy.Config.{Config}
use hubble_reference_thingy.Shell.Text.{same_text}
use hubble_reference_thingy.Common.Text.{codes}
use hubble_reference_thingy.Shell.Commands.{sensor_channel_get}

-- The comparison decides equality.
same_text_refl : (s : List ℕ) → same_text s s ≡ true
unfolding same_text
same_text_refl [] = refl
same_text_refl (a ∷ s) = ground (arith, same_text_refl s)

same_text_sound : (s t : List ℕ) → same_text s t ≡ true → s ≡ t
unfolding same_text
same_text_sound [] [] h = refl
same_text_sound [] (b ∷ t) h = absurd (ground (arith, h))
same_text_sound (a ∷ s) [] h = absurd (ground (arith, h))
same_text_sound (a ∷ s) (b ∷ t) h =
    let heads : a ≡ b = ground (arith, h) in
    let tails : s ≡ t = same_text_sound s t (ground (arith, h)) in rw (heads, tails) refl

abbrev pub same_name : (s t : List ℕ) → Dec (s ≡ t)
same_name = List-discrete ℕ_discrete

-- the channel that a table gives a name, or else `other`
abbrev pub lookup : List (List ℕ × ℕ) → ℕ → List ℕ → ℕ
lookup [] other str = other
lookup ((name, channel) ∷ table) other str = elim (same_name str name) [
  | yes _ ↦ channel
  | no _ ↦ lookup table other str
]

abbrev pub names : Config → List (List ℕ × ℕ)
names c =
    (codes "temperature", c.ambient_temp)
    ∷ (codes "pressure", c.press)
    ∷ (codes "humidity", c.humidity)
    ∷ (codes "battery", c.gauge_voltage)
    ∷ []

decided :
    {P : Type 0} (d : Dec P) (b : Bool) (u v : ℕ)
    → (b ≡ true → P)
    → (P → b ≡ true)
    → (if b then u else v) ≡ elim d [ yes _ ↦ u | no _ ↦ v ]
decided (yes p) b u v sound complete = rw (complete p) refl
decided (no np) true u v sound complete = absurd (np (sound refl))
decided (no np) false u v sound complete = refl

-- the same table, searched with same_text
abbrev tried : List (List ℕ × ℕ) → ℕ → List ℕ → ℕ
tried [] other str = other
tried ((name, channel) ∷ table) other str =
    if same_text str name then channel else tried table other str

tried-lookup :
    (table : List (List ℕ × ℕ)) (other : ℕ) (str : List ℕ)
    → tried table other str ≡ lookup table other str
tried-lookup [] other str = refl
tried-lookup ((name, channel) ∷ table) other str =
    ap (λ r. if same_text str name then channel else r) (tried-lookup table other str)
    ∙ decided (same_name str name) (same_text str name) channel (lookup table other str)
        (same_text_sound str name) (λ e. rw e (same_text_refl name))

-- The channel of a word is the one that stands beside it in the table of the four names, compared as
-- whole words; any other word, also one that only begins like a name, gives SENSOR_CHAN_MAX.
pub sensor_channel_get-lookup :
    (c : Config) (str : List ℕ) → sensor_channel_get c str ≡ lookup (names c) c.chan_max str
unfolding sensor_channel_get
sensor_channel_get-lookup c str = tried-lookup (names c) c.chan_max str
