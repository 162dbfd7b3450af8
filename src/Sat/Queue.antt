-- ===== src/Sat/Queue.antt =====
-- What the pass table promises: a queue of passes in the order of registration, with room for a
-- number of registrations that is fixed at boot.
use hubble_reference_thingy.Common.{
  ℕ, ◌-◌, Bool, true, false, List, [], ◌∷◌, ◌++◌, map, take, leb, if◌then◌else◌,
}
use hubble_reference_thingy.App.{Pass}

pub record Queue : Type 0 where
  -- the passes that are still to come, the next one first
  pub pending : List Pass
  -- how many registrations are left
  pub room : ℕ

unfoldable pub add : ℕ → ℕ → Queue → Bool × Queue
add timestamp duration q = if leb q.room 0 then (false, q) else (
  true,
  record {
    pending = q.pending ++ (record { timestamp = timestamp; duration = duration } ∷ []);
    room = q.room - 1;
  },
)

-- the passes from the first one on that begins after `now_s`
unfoldable pub drop_started : ℕ → List Pass → List Pass
drop_started now_s [] = []
drop_started now_s (p ∷ ps) = if leb p.timestamp now_s then drop_started now_s ps else p ∷ ps

unfoldable pub upcoming : ℕ → Queue → List ℕ
upcoming len q = map (λ p. p.timestamp) (take len q.pending)
