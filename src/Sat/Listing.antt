-- ===== src/Sat/Listing.antt =====
-- The timestamps that sat_next_transmission_get of app/src/sat_board.c hands out.
use hubble_reference_thingy.Common.{
  ℕ, zero, suc, ◌+◌, ◌-◌, min, ◌≡◌, refl, ap, sym, false, ◌∷◌, map, length, take, arith,
}
use hubble_reference_thingy.Common.Int.{pos}
use hubble_reference_thingy.Config.{Config}
use hubble_reference_thingy.App.{Sat, u16}
use hubble_reference_thingy.Sat.Passes.{pass_at, copy_timestamps, sat_next_transmission_get}
use hubble_reference_thingy.Sat.Queue
use hubble_reference_thingy.Sat.Queue.{Queue, drop_started}
use hubble_reference_thingy.Sat.Table.{IsTable, window, view}

copy_timestamps-take :
    (s : Sat) (i n len : ℕ)
    → copy_timestamps s i (min len n) ≡ map (λ p. p.timestamp) (take len (window s.passes i n))
unfolding copy_timestamps
copy_timestamps-take s i n zero = let e : min 0 n ≡ 0 = omega arith in rw e refl
copy_timestamps-take s i zero (suc len) = let e : min (suc len) 0 ≡ 0 = omega arith in rw e refl
copy_timestamps-take s i (suc n) (suc len) =
    let e : min (suc len) (suc n) ≡ suc (min len n) = omega arith in
    rw e (ap (λ l. (pass_at s i).timestamp ∷ l) (copy_timestamps-take s (i + 1) n len))

length-copy_timestamps : (s : Sat) (i n : ℕ) → length (copy_timestamps s i n) ≡ n
unfolding copy_timestamps
length-copy_timestamps s i zero = refl
length-copy_timestamps s i (suc n) = ap suc (length-copy_timestamps s (i + 1) n)

-- In the build without pass prediction, the timestamps handed out of a well-formed table are the
-- queue's next ones, in order, at most `len`, and the result is their number.
pub sat_next_transmission_get_refines :
    (c : Config) (len : ℕ) {s : Sat}
    → c.pass_prediction ≡ false
    → IsTable s
    → let (ret, timestamps) = sat_next_transmission_get c len s in
      (timestamps ≡ Queue.upcoming len (view s)) × (ret ≡ pos (length timestamps))
unfolding sat_next_transmission_get Queue.upcoming
sat_next_transmission_get_refines c len {s} off v =
    let e : u16 (min len (s.count - s.idx)) ≡ min len (s.count - s.idx) = omega arith in
    rw off (
      rw e (
        copy_timestamps-take s s.idx (s.count - s.idx) len,
        ap pos (sym (length-copy_timestamps s s.idx (min len (s.count - s.idx)))),
      ))
