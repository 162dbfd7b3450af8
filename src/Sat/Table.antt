-- ===== src/Sat/Table.antt =====
-- The pass table of app/src/sat_board.c as the queue of `Sat.Queue`: what it holds, and registration.
use hubble_reference_thingy.Common.{
  ℕ, zero, suc, ◌+◌, ◌-◌, ◌≤◌, ◌<◌, ◌≡◌, refl, ap, ◌∙◌, Bool, true, false, List, [], ◌∷◌, ◌++◌,
  length, get_or, set, length-set, get_or-set_self, get_or-set_ne, leb, Bool-cases, inl, inr, arith,
}
use hubble_reference_thingy.Common.Int.{is_zero}
use hubble_reference_thingy.Config.{Config, IsConfig}
use hubble_reference_thingy.App.{Sat, Pass, u16}
use hubble_reference_thingy.Sat.Passes.{max_passes, no_pass, sat_pass_add}
use hubble_reference_thingy.Sat.Queue
use hubble_reference_thingy.Sat.Queue.{Queue, drop_started}

-- What holds of the table between two calls.
pub record IsTable (s : Sat) : Type 0 where
  pub array : length s.passes ≡ max_passes
  pub idx_in : s.idx ≤ s.count
  pub count_in : s.count ≤ max_passes

-- the `n` entries from index `i` on
abbrev pub window : List Pass → ℕ → ℕ → List Pass
window ps i zero = []
window ps i (suc n) = get_or ps i no_pass ∷ window ps (i + 1) n

abbrev pub pending : Sat → List Pass
pending s = window s.passes s.idx (s.count - s.idx)

abbrev pub view : Sat → Queue
view s = record { pending = pending s; room = max_passes - s.count }

abbrev pub is_empty : List Pass → Bool
is_empty [] = true
is_empty (p ∷ ps) = false

-- Writing just past a window extends it by that entry.
window-set :
    (ps : List Pass) (i n j : ℕ) (p : Pass)
    → j ≡ i + n
    → j < length ps
    → window (set ps j p) i (suc n) ≡ window ps i n ++ (p ∷ [])
window-set ps i zero j p e h = rw (get_or_at) refl
  where
    get_or_at : get_or (set ps j p) i no_pass ≡ p
    get_or_at = let e' : i ≡ j = omega arith in rw e' (get_or-set_self ps j p no_pass h)
window-set ps i (suc n) j p e h =
    rw (get_or-set_ne ps {i = j} {j = i} p no_pass (omega arith))
      (ap (λ l. get_or ps i no_pass ∷ l) (window-set ps (i + 1) n j p (omega arith) h))

abbrev pub added : ℕ → ℕ → Sat → Sat
added timestamp duration s = record s {
  passes = set s.passes s.count (record { timestamp = timestamp; duration = duration });
  count = u16 (s.count + 1);
}

pub added-IsTable : (t d : ℕ) {s : Sat} → IsTable s → s.count < max_passes → IsTable (added t d s)
added-IsTable t d {s} v h = record {
  array = length-set s.passes s.count _ ∙ v.array;
  idx_in = omega arith;
  count_in = omega arith;
}

pub pending-added :
    (t d : ℕ) {s : Sat}
    → IsTable s
    → s.count < max_passes
    → pending (added t d s) ≡ pending s ++ (record { timestamp = t; duration = d } ∷ [])
pending-added t d {s} v h =
    let e : u16 (s.count + 1) - s.idx ≡ suc (s.count - s.idx) = omega arith in
    rw e (window-set s.passes s.idx (s.count - s.idx) s.count _ (omega arith) (omega arith))

-- In the build without pass prediction, registration on a well-formed table is the queue's: it
-- succeeds exactly when there is room, puts the pass last, and leaves a well-formed table.
pub sat_pass_add_refines :
    (c : Config) (timestamp duration : ℕ) {s : Sat}
    → IsConfig c
    → c.pass_prediction ≡ false
    → IsTable s
    → let (ret, s') = sat_pass_add c timestamp duration s in
      IsTable s' × ((is_zero ret, view s') ≡ Queue.add timestamp duration (view s))
unfolding sat_pass_add Queue.add
sat_pass_add_refines c timestamp duration {s} k off v = elim (Bool-cases (leb max_passes s.count)) [
  | inl full ↦ ground arith
  | inr space ↦
      ground (arith, added-IsTable timestamp duration v, pending-added timestamp duration v)
]

pub sat_pass_add-IsTable :
    (c : Config) (timestamp duration : ℕ) {s : Sat}
    → IsTable s
    → IsTable (sat_pass_add c timestamp duration s).1
unfolding sat_pass_add
sat_pass_add-IsTable c timestamp duration {s} v = elim (Bool-cases c.pass_prediction) [
  | inl on ↦ rw on v
  | inr off ↦ rw off (elim (Bool-cases (leb max_passes s.count)) [
    | inl full ↦ rw full v
    | inr space ↦ rw space (added-IsTable timestamp duration v (ground arith))
  ])
]
