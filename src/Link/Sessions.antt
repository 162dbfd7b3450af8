-- ===== src/Link/Sessions.antt =====
-- Satellite sessions one after the other: main of app/src/main.c switches the network core on and off for
-- each, so that app/cpunet/src/main.c starts anew, while the semaphore of ipc_send stays as it is.
use hubble_reference_thingy.Common.{
  ℕ, ◌+◌, ◌≤◌, ◌≡◌, refl, sym, ap, ◌∙◌, false, List, [], ◌∷◌, ◌++◌, length, length-append,
  Bool-cases, inl, inr, arith,
}
use hubble_reference_thingy.Common.Int.{ℤ}
use hubble_reference_thingy.SatIpc.{Message}
use hubble_reference_thingy.App.{AppEnv, AppWorld}
use hubble_reference_thingy.Net.Calls.{NetEnv, NetWorld, Format}
use hubble_reference_thingy.Net.Fifo.{IsFifo}
use hubble_reference_thingy.Link.Fifo.{driven, asks_all, reading}
use hubble_reference_thingy.Link.Account.{one, available, IsSem, successes, Served, IsServed}
use hubble_reference_thingy.Link.Synchronous.{
  IsFresh, IsFresh-IsServed, run-IsServed, enough_done, everything_done,
}
use hubble_reference_thingy.Link.{Link, Run}

-- The channel when the network core has just started: what was on its way before is lost.
abbrev pub restarted : AppWorld → NetWorld → Link
restarted app net = record {
  app = app;
  net = net;
  posted = [];
  air = [];
  delivered = 0;
  waiting = false;
  returned = [];
}

module _ (env : AppEnv) (f : Format) (net_env : NetEnv) where
  -- Sessions from a state on, with what the calls of ipc_send returned in those that have ended, the
  -- latest first. Between two of them no call is waiting, and sat_sem is left alone.
  pub data Sessions (l : Link) : List (List ℤ) → Link → Type 0 where
    only : {l' : Link} → Run env f net_env l l' → Sessions l [] l'
    another :
        {results : List (List ℤ)} {l' l'' : Link} (app : AppWorld) (net : NetWorld)
        → Sessions l results l'
        → l'.waiting ≡ false
        → available app.trace ≡ available l'.app.trace
        → reading net.trace ≡ reading []
        → Run env f net_env (restarted app net) l''
        → Sessions l (l'.returned ∷ results) l''

abbrev pub AllSucceeded : List ℤ → Type 0
AllSucceeded returned = successes returned ≡ length returned

abbrev pub AreAllSucceeded : List (List ℤ) → Type 0
AreAllSucceeded [] = Unit {0}
AreAllSucceeded (r ∷ rs) = AllSucceeded r × AreAllSucceeded rs

-- A session starts with what the semaphore holds.
restarted-IsServed :
    (app : AppWorld) (net : NetWorld)
    → reading net.trace ≡ reading []
    → IsServed (one (available app.trace)) (restarted app net)
restarted-IsServed app net quiet = (
  [],
  record {
    queue = [];
    ready = 0;
    sent = 0;
    explains = quiet;
    posted_is = refl;
    answered = refl;
    arrived = omega arith;
    delivered_in = omega arith;
    called = refl;
  },
)

-- Where every call has succeeded, every answer is taken.
Served-taken :
    {l : Link} {ds : List Message}
    → Served 0 l ds
    → AllSucceeded l.returned
    → l.waiting ≡ false
    → available l.app.trace ≡ false
Served-taken {l} {ds} v all idle =
    let n : length l.posted ≡ length ds + length (v.queue ++ l.air) =
      ap length v.posted_is ∙ length-append ds (v.queue ++ l.air) in
    let called : length l.posted ≡ length l.returned + 0 =
      v.called ∙ ap (λ b. length l.returned + one b) idle in
    elim (Bool-cases (available l.app.trace)) [
      | inr taken ↦ taken
      | inl left ↦
          let some_ : one (available l.app.trace) ≡ 1 = rw left refl in
          let a = v.arrived in
          let d = v.delivered_in in
          let e = v.answered in absurd (omega (arith, all, n, called, some_, a, d, e))
    ]

module _ (env : AppEnv) (f : Format) (net_env : NetEnv) (s : IsSem env) (q : IsFifo net_env) where
  sessions-IsServed :
      {l l' : Link} {results : List (List ℤ)}
      → IsFresh l
      → Sessions env f net_env l results l'
      → (stale : ℕ) × (stale ≤ 1) × IsServed stale l'
  sessions-IsServed h (only r) =
      (0, omega arith, run-IsServed env f net_env s q (IsFresh-IsServed h) r)
  sessions-IsServed h (another app net ss idle same quiet r) = (
    one (available app.trace),
    ground arith,
    run-IsServed env f net_env s q (restarted-IsServed app net quiet) r,
  )

  sessions-succeeded :
      {l l' : Link} {results : List (List ℤ)}
      → IsFresh l
      → Sessions env f net_env l results l'
      → AreAllSucceeded results
      → IsServed 0 l'
  sessions-succeeded h (only r) all = run-IsServed env f net_env s q (IsFresh-IsServed h) r
  sessions-succeeded h (another app net ss idle same quiet r) (ended, all) =
      let (ds, v) = sessions-succeeded h ss all in
      let taken : available app.trace ≡ false = same ∙ Served-taken v ended idle in
      run-IsServed env f net_env s q (rw (ap one taken) at (restarted-IsServed app net quiet)) r

  -- In every interleaving of the two cores, and in any number of sessions, between which the network core
  -- starts anew: in the session that is under way, the satellite driver has been called for a first part
  -- of the messages that ipc_service_send took, in their order and for nothing else, and that part has at
  -- most one message less than calls of ipc_send have succeeded. At the start nothing is sent; the queues
  -- are taken to hand out first what was put first, and a take of sat_sem to succeed exactly when it is
  -- available.
  pub sessions_serve_in_order :
      {l l' : Link} {results : List (List ℤ)}
      → IsFresh l
      → Sessions env f net_env l results l'
      → (served : List Message) × (rest : List Message) × (l'.posted ≡ served ++ rest)
        × (driven l'.net.trace ≡ asks_all served)
        × (successes l'.returned ≤ length served + 1)
  sessions_serve_in_order {l} {l'} h ss =
      let (stale, few, account) = sessions-IsServed h ss in
      let (ds, v) = account in
      (
        ds,
        v.queue ++ l'.air,
        v.posted_is,
        ap (λ r. r.calls) v.explains,
        (let n = enough_done env f net_env s q v in omega arith),
      )

  -- In every interleaving of the two cores, and in any number of sessions, between which the network core
  -- starts anew: as long as every call of ipc_send that has returned has succeeded, in the sessions before
  -- and in the one that is under way, and none is waiting, the satellite driver has been called for all the
  -- messages that ipc_service_send took in this session, in their order and for nothing else. At the start
  -- nothing is sent; the queues are taken to hand out first what was put first, and a take of sat_sem to
  -- succeed exactly when it is available.
  pub sessions_synchronous :
      {l l' : Link} {results : List (List ℤ)}
      → IsFresh l
      → Sessions env f net_env l results l'
      → AreAllSucceeded results
      → AllSucceeded l'.returned
      → l'.waiting ≡ false
      → driven l'.net.trace ≡ asks_all l'.posted
  sessions_synchronous {l} {l'} h ss ended all idle =
      let (ds, v) = sessions-succeeded h ss ended in
      ap (λ r. r.calls) v.explains
      ∙ ap asks_all (sym (everything_done env f net_env s q v all idle))
