-- ===== src/Ble/Ephemeris.antt =====
-- The messages of the companion and what _chr_write_cb of app/src/ble.c makes of them: every pass of
-- an ephemeris message is registered, in order, and no message breaks the table.
use hubble_reference_thingy.Common.{
  ℕ, zero, suc, ◌+◌, ◌-◌, ◌*◌, ◌/◌, ◌%◌, ◌^◌, ◌≤◌, ◌<◌, ◌≡◌, refl, sym, ap, ◌∙◌, false, List, [],
  ◌∷◌, ◌++◌, append_assoc, append-nil, length, drop, ltb, lt→ltb, le→ltb-false, lt→leb-false,
  Bool-cases, inl, inr, arith,
}
use hubble_reference_thingy.Common.Int.{pos, is_zero}
use hubble_reference_thingy.Config.{Config}
use hubble_reference_thingy.App.{Sat, Pass}
use hubble_reference_thingy.Sat.Passes.{max_passes, sat_pass_add}
use hubble_reference_thingy.Sat.Table.{
  IsTable, sat_pass_add-IsTable, pending, added, added-IsTable, pending-added,
}
use hubble_reference_thingy.Ble.Write.{
  pkt_cmd, cmd_setephemeris, entry_size, le_value, add_entries, set_ephemeris,
}

-- what the companion sends: `n` bytes of a number, the lowest first
abbrev pub le_bytes : ℕ → ℕ → List ℕ
le_bytes zero v = []
le_bytes (suc n) v = (v % 256) ∷ le_bytes n (v / 256)

abbrev entry_bytes : Pass → List ℕ
entry_bytes p = le_bytes 4 p.timestamp ++ le_bytes 2 p.duration

abbrev entries_bytes : List Pass → List ℕ
entries_bytes [] = []
entries_bytes (p ∷ ps) = entry_bytes p ++ entries_bytes ps

abbrev pub ephemeris_message : List Pass → List ℕ
ephemeris_message ps = pkt_cmd ∷ cmd_setephemeris ∷ (le_bytes 4 (length ps) ++ entries_bytes ps)

-- each pass fits a uint32_t and a uint16_t
abbrev pub AreEntries : List Pass → Type 0
AreEntries [] = Unit {0}
AreEntries (p ∷ ps) = (p.timestamp < 2 ^ 32) × (p.duration < 2 ^ 16) × AreEntries ps

le_value_4 : (v : ℕ) (rest : List ℕ) → v < 2 ^ 32 → le_value 4 (le_bytes 4 v ++ rest) ≡ v
unfolding le_value
le_value_4 v rest h = omega arith

le_value_2 : (v : ℕ) (rest : List ℕ) → v < 2 ^ 16 → le_value 2 (le_bytes 2 v ++ rest) ≡ v
unfolding le_value
le_value_2 v rest h = omega arith

pub le_value_8 : (v : ℕ) (rest : List ℕ) → v < 2 ^ 64 → le_value 8 (le_bytes 8 v ++ rest) ≡ v
unfolding le_value
le_value_8 v rest h = omega arith

length-entries_bytes : (ps : List Pass) → length (entries_bytes ps) ≡ entry_size * length ps
length-entries_bytes [] = refl
length-entries_bytes (p ∷ ps) = omega (arith, length-entries_bytes ps)

-- A registration that finds room.
sat_pass_add_room :
    (c : Config) (t d : ℕ) (s : Sat)
    → c.pass_prediction ≡ false
    → s.count < max_passes
    → sat_pass_add c t d s ≡ (pos 0, added t d s)
unfolding sat_pass_add
sat_pass_add_room c t d s off room = rw off (rw (lt→leb-false max_passes s.count room) refl)

-- What registering `ps` makes of the table at `s`.
pub record Registers (ps : List Pass) (s s' : Sat) : Type 0 where
  pub table : IsTable s'
  pub queue : pending s' ≡ pending s ++ ps

add_entries_step :
    (c : Config) (p : Pass) (ps : List Pass) (available : ℕ) (s : Sat)
    → c.pass_prediction ≡ false
    → s.count < max_passes
    → AreEntries (p ∷ ps)
    → entry_size ≤ available
    → add_entries c (length (p ∷ ps)) available (entries_bytes (p ∷ ps)) s
      ≡ add_entries c
          (length ps)
          (available - entry_size)
          (entries_bytes ps)
          (added p.timestamp p.duration s)
unfolding add_entries
add_entries_step c p ps available s off more fits enough =
    let e4 : le_value 4 (entries_bytes (p ∷ ps)) ≡ p.timestamp =
      le_value_4 p.timestamp (le_bytes 2 p.duration ++ entries_bytes ps) fits.0 in
    let e2 : le_value 2 (drop 4 (entries_bytes (p ∷ ps))) ≡ p.duration =
      le_value_2 p.duration (entries_bytes ps) fits.1 in
    let added_lem : sat_pass_add c (le_value 4 (entries_bytes (p ∷ ps)))
          (le_value 2 (drop 4 (entries_bytes (p ∷ ps)))) s
        ≡ (pos 0, added p.timestamp p.duration s) =
      rw e4 (rw e2 (sat_pass_add_room c p.timestamp p.duration s off more)) in
    rw (le→ltb-false available entry_size enough, add_entries) (rw added_lem (rw added_lem refl))

add_entries-Registers :
    (c : Config) (ps : List Pass) (available : ℕ) (s : Sat)
    → c.pass_prediction ≡ false
    → IsTable s
    → AreEntries ps
    → s.count + length ps ≤ max_passes
    → entry_size * length ps ≤ available
    → Registers ps s (add_entries c (length ps) available (entries_bytes ps) s)
unfolding add_entries
add_entries-Registers c [] available s off v fits room enough = record {
  table = v;
  queue = sym (append-nil (pending s));
}
add_entries-Registers c (p ∷ ps) available s off v fits room enough =
    let more : s.count < max_passes = omega arith in
    let s' = added p.timestamp p.duration s in
    let after : s'.count + length ps ≤ max_passes = omega arith in
    let k =
      add_entries-Registers c ps (available - entry_size) s' off
        (added-IsTable p.timestamp p.duration v more) fits.2 after (omega arith) in
    rw (add_entries_step c p ps available s off more fits (omega arith)) (record {
      table = k.table;
      queue =
          k.queue
          ∙ ap (λ l. l ++ ps) (pending-added p.timestamp p.duration v more)
          ∙ append_assoc (pending s) (p ∷ []) ps;
    })

-- In the build without pass prediction, an ephemeris message of passes that fit their fields
-- registers all of them, in order, behind those that are pending in a well-formed table, if the
-- table has room for them; the table stays well-formed.
pub set_ephemeris-Registers :
    (c : Config) (ps : List Pass) {s : Sat}
    → c.pass_prediction ≡ false
    → IsTable s
    → AreEntries ps
    → s.count + length ps ≤ max_passes
    → Registers ps s (set_ephemeris c (ephemeris_message ps) (length (ephemeris_message ps)) s)
unfolding set_ephemeris
set_ephemeris-Registers c [] {s} off v fits room =
    rw off (record { table = v; queue = sym (append-nil (pending s)) })
set_ephemeris-Registers c (p ∷ ps) {s} off v fits room =
    let n : length (p ∷ ps) < 2 ^ 32 = omega arith in
    let e4 : le_value 4 (drop 2 (ephemeris_message (p ∷ ps))) ≡ length (p ∷ ps) =
      le_value_4 (length (p ∷ ps)) (entries_bytes (p ∷ ps)) n in
    let len : entry_size * length (p ∷ ps) ≤ length (ephemeris_message (p ∷ ps)) - 2 - 4 =
      omega (arith, length-entries_bytes (p ∷ ps)) in
    simp off (
      rw e4 (
        rw (lt→ltb 6 (length (ephemeris_message (p ∷ ps))) (omega arith))
          (add_entries-Registers c (p ∷ ps) _ s off v fits room len)))

add_entries-IsTable :
    (c : Config) (count available : ℕ) (p : List ℕ) {s : Sat}
    → IsTable s
    → IsTable (add_entries c count available p s)
unfolding add_entries
add_entries-IsTable c zero available p v = v
add_entries-IsTable c (suc count) available p {s} v =
    let timestamp = le_value 4 p in
    let duration = le_value 2 (drop 4 p) in
    let registered = sat_pass_add-IsTable c timestamp duration v in
    elim (Bool-cases (ltb available entry_size)) [
      | inl short ↦ rw (short, add_entries) v
      | inr enough ↦
          rw (enough, add_entries)
            (elim (Bool-cases (is_zero (sat_pass_add c timestamp duration s).0)) [
              | inr refused ↦ rw refused registered
              | inl taken ↦ rw taken (
                  add_entries-IsTable c count (available - entry_size) (drop entry_size p)
                    registered)
            ])
    ]

-- Whatever the companion writes, of whatever length, the table stays a table.
pub set_ephemeris-IsTable :
    (c : Config) (req : List ℕ) (len : ℕ) {s : Sat}
    → IsTable s
    → IsTable (set_ephemeris c req len s)
unfolding set_ephemeris
set_ephemeris-IsTable c req len {s} v = elim (Bool-cases c.pass_prediction) [
  | inl on ↦ rw on v
  | inr off ↦ simp off (elim (Bool-cases (ltb 6 len)) [
    | inl long ↦
        rw long (add_entries-IsTable c (le_value 4 (drop 2 req)) (len - 2 - 4) (drop 6 req) v)
    | inr short ↦ rw short v
  ])
]
