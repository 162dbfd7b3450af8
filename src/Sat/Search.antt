-- ===== src/Sat/Search.antt =====
-- The search for the next pass in the table of app/src/sat_board.c against the queue of `Sat.Queue`.
use hubble_reference_thingy.Common.{
  ℕ, zero, suc, ◌+◌, ◌-◌, ◌≤◌, ◌<◌, ◌≡◌, refl, ap, sym, ◌∙◌, Bool, not, [], ◌∷◌, leb, ltb,
  Bool-cases, leb→le, inl, inr, arith,
}
use hubble_reference_thingy.App.{Sat, u16}
use hubble_reference_thingy.Sat.Passes.{pass_at, skip_started, next_in_table}
use hubble_reference_thingy.Sat.Queue.{drop_started}
use hubble_reference_thingy.Sat.Table.{IsTable, pending, is_empty}

next_idx : Sat → Sat
next_idx s = record s { idx = u16 (s.idx + 1) }

next_idx-IsTable : {s : Sat} → IsTable s → s.idx < s.count → IsTable (next_idx s)
unfolding next_idx
next_idx-IsTable v h = omega arith

pending-next_idx :
    {s : Sat} (n : ℕ)
    → IsTable s
    → s.count - s.idx ≡ suc n
    → pending s ≡ pass_at s s.idx ∷ pending (next_idx s)
unfolding next_idx
pending-next_idx {s} n v e =
    let e' : s.count - u16 (s.idx + 1) ≡ n = omega arith in
    let e2 : u16 (s.idx + 1) ≡ s.idx + 1 = omega arith in rw e (rw e' (rw e2 refl))

drop_kept :
    (now_s n : ℕ) {s : Sat}
    → IsTable s
    → s.count - s.idx ≡ suc n
    → now_s < (pass_at s s.idx).timestamp
    → drop_started now_s (pending s) ≡ pending s
unfolding drop_started
drop_kept now_s n {s} v e h = rw (pending-next_idx n v e) (ground arith)

drop_skipped :
    (now_s n : ℕ) {s : Sat}
    → IsTable s
    → s.count - s.idx ≡ suc n
    → (pass_at s s.idx).timestamp ≤ now_s
    → drop_started now_s (pending s) ≡ drop_started now_s (pending (next_idx s))
unfolding drop_started
drop_skipped now_s n {s} v e h = rw (pending-next_idx n v e) (ground arith)

-- What the search at `now_s` makes of the table: `queue`, `found` and `same` determine the result.
pub record Skips (now_s : ℕ) (s : Sat) (out : Bool × Sat) : Type 0 where
  pub table : IsTable out.1
  pub queue : pending out.1 ≡ drop_started now_s (pending s)
  pub found : out.0 ≡ not (is_empty (pending out.1))
  pub ahead : s.idx ≤ out.1.idx
  pub same : out.1 ≡ record s { idx = out.1.idx }

pub pending-nil : (s : Sat) → s.count ≤ s.idx → pending s ≡ []
pending-nil s h = let e : s.count - s.idx ≡ 0 = omega arith in rw e refl

Skips-next :
    (now_s : ℕ) {s : Sat} {out : Bool × Sat}
    → IsTable s
    → s.idx < s.count
    → drop_started now_s (pending s) ≡ drop_started now_s (pending (next_idx s))
    → Skips now_s (next_idx s) out
    → Skips now_s s out
unfolding next_idx
Skips-next now_s {s} {out} v h e k = record {
  table = k.table;
  queue = k.queue ∙ sym e;
  found = k.found;
  ahead = let a : u16 (s.idx + 1) ≤ out.1.idx = k.ahead in omega arith;
  same = k.same;
}

skip_started-Skips :
    (left now_s : ℕ) {s : Sat}
    → IsTable s
    → s.count - s.idx ≡ left
    → Skips now_s s (skip_started left now_s s)
unfolding skip_started drop_started next_idx
skip_started-Skips zero now_s {s} v e = record {
  table = v;
  queue = rw e refl;
  found = rw e refl;
  ahead = omega arith;
  same = refl;
}
skip_started-Skips (suc left) now_s {s} v e =
    elim (Bool-cases (ltb (pass_at s s.idx).timestamp (now_s + 1))) [
      | inr later ↦ rw later (record {
        table = v;
        queue = sym (drop_kept now_s left v e (ground arith));
        found = rw (pending-next_idx left v e) refl;
        ahead = omega arith;
        same = refl;
      })
      | inl started ↦
          let skipped = drop_skipped now_s left v e (ground arith) in
          rw started (elim (Bool-cases (leb s.count (u16 (s.idx + 1)))) [
            | inl last ↦
                let gone = pending-nil (next_idx s) (leb→le _ _ last) in
                rw last (record {
                  table = next_idx-IsTable v (omega arith);
                  queue = gone ∙ sym (skipped ∙ ap (drop_started now_s) gone);
                  found = rw gone refl;
                  ahead = omega arith;
                  same = refl;
                })
            | inr more ↦ rw more (
                Skips-next now_s v (omega arith) skipped
                  (skip_started-Skips left now_s (next_idx-IsTable v (omega arith)) (omega arith)))
          ])
    ]

-- The search for the next pass in a well-formed table is the queue's: whatever began by `now_s` is
-- dropped from the front, the search succeeds exactly when a pass is left, the table stays
-- well-formed, and nothing but the index changes, which never goes back.
pub next_in_table_refines :
    (now_s : ℕ) {s : Sat} → IsTable s → Skips now_s s (next_in_table now_s s)
unfolding next_in_table drop_started
next_in_table_refines now_s {s} v = elim (Bool-cases (leb s.count s.idx)) [
  | inl none_left ↦
      let gone = pending-nil s (leb→le _ _ none_left) in
      rw none_left (record {
        table = v;
        queue = gone ∙ ap (drop_started now_s) (sym gone);
        found = rw gone refl;
        ahead = omega arith;
        same = refl;
      })
  | inr some_left ↦ rw some_left (skip_started-Skips (s.count - s.idx) now_s v refl)
]
