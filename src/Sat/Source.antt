-- ===== src/Sat/Source.antt =====
-- What the rounds of main (app/src/main.c) rely on: a source of passes that a search at a time drops
-- started passes from. The queue of `Sat.Queue` is one, and so is the table of app/src/sat_board.c.
use hubble_reference_thingy.Common.{
  ℕ, ◌≤◌, ◌<◌, ◌≡◌, refl, sym, ap, ◌∙◌, Bool, true, not, List, [], ◌∷◌, ◌++◌, arith,
}
use hubble_reference_thingy.App.{Pass}
use hubble_reference_thingy.Sat.Queue.{Queue, drop_started}
use hubble_reference_thingy.Sat.Table.{is_empty}

pub record Source : Type 1 where
  pub Carrier : Type 0
  -- the passes still to come, the next one first
  pub pending : Carrier → List Pass
  -- the search at a time, in seconds
  pub next : ℕ → Carrier → Bool × Carrier
  pub pending-next :
      (now_s : ℕ) (s : Carrier) → pending (next now_s s).1 ≡ drop_started now_s (pending s)
  pub next_found :
      (now_s : ℕ) (s : Carrier) → (next now_s s).0 ≡ not (is_empty (pending (next now_s s).1))

-- the pass that a search has found
abbrev pub found_pass : Bool → List Pass → List Pass
found_pass true (p ∷ ps) = p ∷ []
found_pass _ _ = []

module _ (source : Source) where
  -- the passes that the rounds wait for whose searches run at these times
  unfoldable pub scheduled : List ℕ → source.Carrier → List Pass
  scheduled [] s = []
  scheduled (now_s ∷ times) s =
      let (found, s') = source.next now_s s in
      found_pass found (source.pending s') ++ scheduled times s'

-- the queue itself, as a source
abbrev pub queue_source : Source
queue_source = record {
  Carrier = Queue;
  pending = λ q. q.pending;
  next = λ now_s q.
      let ps = drop_started now_s q.pending in (not (is_empty ps), record q { pending = ps });
  pending-next = λ now_s q. refl;
  next_found = λ now_s q. refl;
}

-- Two sources with the same passes pending serve searches alike, whenever they run.
pub scheduled-pending :
    (s t : Source) (times : List ℕ) (a : s.Carrier) (b : t.Carrier)
    → s.pending a ≡ t.pending b
    → scheduled s times a ≡ scheduled t times b
unfolding scheduled
scheduled-pending s t [] a b same = refl
scheduled-pending s t (now_s ∷ times) a b same =
    let after : s.pending (s.next now_s a).1 ≡ t.pending (t.next now_s b).1 =
      s.pending-next now_s a ∙ ap (drop_started now_s) same ∙ sym (t.pending-next now_s b) in
    let found : (s.next now_s a).0 ≡ (t.next now_s b).0 =
      s.next_found now_s a ∙ ap (λ l. not (is_empty l)) after ∙ sym (t.next_found now_s b) in
    let rest = scheduled-pending s t times (s.next now_s a).1 (t.next now_s b).1 after in
    ap (λ l. found_pass (s.next now_s a).0 l ++ scheduled s times (s.next now_s a).1) after
    ∙ ap (λ f. found_pass f (t.pending (t.next now_s b).1) ++ scheduled s times (s.next now_s a).1)
        found
    ∙ ap (λ l. found_pass (t.next now_s b).0 (t.pending (t.next now_s b).1) ++ l) rest

-- The first search runs before the first pass, and each later one when the pass before has begun and
-- the next one has not.
abbrev pub AreInTime : ℕ → List ℕ → List Pass → Type 0
AreInTime begun [] [] = Unit {0}
AreInTime begun (now_s ∷ times) (p ∷ ps) =
    (begun ≤ now_s) × (now_s < p.timestamp) × AreInTime p.timestamp times ps
AreInTime begun _ _ = ⊥

drop_started-kept :
    (now_s : ℕ) (p : Pass) (ps : List Pass)
    → now_s < p.timestamp
    → drop_started now_s (p ∷ ps) ≡ p ∷ ps
unfolding drop_started
drop_started-kept now_s p ps h = ground arith

drop_started-past :
    (now_s : ℕ) (p : Pass) (ps : List Pass)
    → p.timestamp ≤ now_s
    → drop_started now_s (p ∷ ps) ≡ drop_started now_s ps
unfolding drop_started
drop_started-past now_s p ps h = ground arith

module _ (source : Source) where
  -- From the time `begun` on, what is pending is as good as `ps`.
  serves_each :
      (times : List ℕ) (ps : List Pass) (begun : ℕ) (s : source.Carrier)
      → ((t : ℕ) → begun ≤ t → drop_started t (source.pending s) ≡ drop_started t ps)
      → AreInTime begun times ps
      → scheduled source times s ≡ ps
  unfolding scheduled
  serves_each [] [] begun s h t = refl
  serves_each [] (p ∷ ps) begun s h t = absurd t
  serves_each (now_s ∷ times) [] begun s h t = absurd t
  serves_each (now_s ∷ times) (p ∷ ps) begun s h (after, before, later) =
      let s' = (source.next now_s s).1 in
      let front : source.pending s' ≡ p ∷ ps =
        source.pending-next now_s s ∙ h now_s after ∙ drop_started-kept now_s p ps before in
      let found : (source.next now_s s).0 ≡ true =
        source.next_found now_s s ∙ ap (λ l. not (is_empty l)) front in
      let rest =
        serves_each times ps p.timestamp s'
          (λ t le. ap (drop_started t) front ∙ drop_started-past t p ps le) later in
      rw (found, front) (ap (λ l. p ∷ l) rest)

  -- Searches that run in time find every pass of a source, in order.
  pub scheduled-in_time :
      (times : List ℕ) (s : source.Carrier)
      → AreInTime 0 times (source.pending s)
      → scheduled source times s ≡ source.pending s
  scheduled-in_time times s t = serves_each times (source.pending s) 0 s (λ t le. refl) t
