-- ===== src/Link/Account.antt =====
-- The account of a channel (app/src/main.c, app/cpunet/src/main.c): the semaphore, the results of
-- ipc_send, and the messages and answers behind them.
use hubble_reference_thingy.Common.{
  ℕ, zero, suc, ◌+◌, ◌≤◌, ◌≡◌, refl, sym, ap, ◌∙◌, Bool, true, false, List, [], ◌∷◌, ◌++◌, map,
  append_assoc, append-nil, length, drop, replicate, if◌then◌else◌, arith,
}
use hubble_reference_thingy.Common.Int.{ℤ, is_zero}
use hubble_reference_thingy.SatIpc.{Message, bytes_of}
use hubble_reference_thingy.App.{AppEnv, Call, sat_sem, k_sem_give, k_sem_take, Timeout}
use hubble_reference_thingy.Link.Fifo.{asks, asks_all, reading, answer_bytes}
use hubble_reference_thingy.Link.{Link}

-- whether sat_sem is available, whose count is 0 or 1
abbrev pub available : List Call → Bool
available [] = false
available (k_sem_give sat_sem ∷ tr) = true
available (k_sem_take sat_sem _ ∷ tr) = false
available (_ ∷ tr) = available tr

-- a take succeeds when it finds the semaphore available; else it has timed out
pub record IsSem (env : AppEnv) : Type 0 where
  pub found :
      (tr : List Call) (t : Timeout) → is_zero (env.ret tr (k_sem_take sat_sem t)) ≡ available tr

-- how many calls of ipc_send have succeeded
abbrev pub successes : List ℤ → ℕ
successes [] = 0
successes (r ∷ rs) = (if is_zero r then 1 else 0) + successes rs

abbrev pub one : Bool → ℕ
one b = if b then 1 else 0

-- The messages that the network core has served, and those that wait in its queue, explain its trace
-- and account for every message and every answer; `stale` is how many answers of earlier sessions count.
pub record Served (stale : ℕ) (l : Link) (done_ : List Message) : Type 0 where
  pub queue : List Message
  -- how many answers are queued, and how many are sent
  pub ready : ℕ
  pub sent : ℕ
  pub explains : reading l.net.trace ≡ record {
    tx = map bytes_of queue;
    rx = replicate ready answer_bytes;
    answers = replicate sent answer_bytes;
    calls = asks_all done_;
  }
  pub posted_is : l.posted ≡ done_ ++ (queue ++ l.air)
  pub answered : ready + sent ≡ length done_
  pub arrived : successes l.returned + one (available l.app.trace) ≤ l.delivered + stale
  pub delivered_in : l.delivered ≤ sent
  pub called : length l.posted ≡ length l.returned + one l.waiting

pub asks_all-snoc :
    (ms : List Message) (m : Message) → asks_all (ms ++ (m ∷ [])) ≡ asks_all ms ++ asks m
asks_all-snoc [] m = append-nil (asks m)
asks_all-snoc (x ∷ ms) m =
    ap (λ l. asks x ++ l) (asks_all-snoc ms m) ∙ sym (append_assoc (asks x) (asks_all ms) (asks m))

pub replicate-snoc : (n : ℕ) (a : List ℕ) → replicate n a ++ (a ∷ []) ≡ replicate (suc n) a
replicate-snoc zero a = refl
replicate-snoc (suc n) a = ap (λ l. a ∷ l) (replicate-snoc n a)

pub map-snoc :
    (ms : List Message) (m : Message)
    → map bytes_of ms ++ (bytes_of m ∷ []) ≡ map bytes_of (ms ++ (m ∷ []))
map-snoc [] m = refl
map-snoc (x ∷ ms) m = ap (λ l. bytes_of x ∷ l) (map-snoc ms m)

pub drop-nonempty :
    (k n : ℕ) (a b : List ℕ) (rest : List (List ℕ)) → drop k (replicate n a) ≡ b ∷ rest → suc k ≤ n
drop-nonempty zero zero a b rest h = absurd (ground (arith, h))
drop-nonempty zero (suc n) a b rest h = omega arith
drop-nonempty (suc k) zero a b rest h = absurd (ground (arith, h))
drop-nonempty (suc k) (suc n) a b rest h = omega (arith, drop-nonempty k n a b rest h)

abbrev pub IsServed : ℕ → Link → Type 0
IsServed stale l = (done_ : List Message) × Served stale l done_
