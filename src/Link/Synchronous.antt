-- ===== src/Link/Synchronous.antt =====
-- The satellite channel as a synchronous call, and how far: ipc_send of app/src/main.c against the
-- threads of app/cpunet/src/main.c, in every interleaving.
use hubble_reference_thingy.Common.{
  ℕ, suc, ◌+◌, ◌≤◌, ◌≡◌, refl, sym, ap, ◌∙◌, false, List, [], ◌∷◌, ◌++◌, append-nil, length,
  length-append, drop, List-cases, ℕ-cases, inl, inr, arith,
}
use hubble_reference_thingy.SatIpc.{Message}
use hubble_reference_thingy.App.{AppEnv}
use hubble_reference_thingy.Net.Calls.{NetEnv, Format}
use hubble_reference_thingy.Net.Fifo.{IsFifo}
use hubble_reference_thingy.Link.Fifo.{driven, asks_all, reading, answer_bytes}
use hubble_reference_thingy.Link.Account.{
  one, available, IsSem, successes, Served, IsServed, drop-nonempty,
}
use hubble_reference_thingy.Link.Served.{
  posts-Served, delivers-Served, wakes-Served, arrives-Served, serves-Served, answers-Served,
}
use hubble_reference_thingy.Link.{
  Link, flying, Step, posts, refused, arrives, serves, answers, delivers, loses, wakes, Run, done,
  then_,
}

-- the state in which ipc_send is called first: the network core has started and nothing is sent
pub record IsFresh (l : Link) : Type 0 where
  pub quiet : reading l.net.trace ≡ reading []
  pub unposted : l.posted ≡ []
  pub still : l.air ≡ []
  pub undelivered : l.delivered ≡ 0
  pub idle : l.waiting ≡ false
  pub unreturned : l.returned ≡ []
  pub taken : available l.app.trace ≡ false

pub IsFresh-IsServed : {l : Link} → IsFresh l → IsServed 0 l
IsFresh-IsServed {l} h = (
  [],
  record {
    queue = [];
    ready = 0;
    sent = 0;
    explains = h.quiet;
    posted_is = h.unposted ∙ sym h.still;
    answered = refl;
    arrived = rw (h.unreturned, h.taken) (omega arith);
    delivered_in = rw h.undelivered (omega arith);
    called = rw (h.unposted, h.unreturned, h.idle) refl;
  },
)

flying-sent :
    {l : Link} {ds : List Message} {b : List ℕ} {rest : List (List ℕ)} {stale : ℕ}
    (v : Served stale l ds)
    → flying l ≡ b ∷ rest
    → suc l.delivered ≤ v.sent
flying-sent {l} {ds} {b} {rest} v h =
    drop-nonempty l.delivered v.sent answer_bytes b rest
      (ap (drop l.delivered) (sym (ap (λ r. r.answers) v.explains)) ∙ h)

module _ (env : AppEnv) (f : Format) (net_env : NetEnv) (s : IsSem env) (q : IsFifo net_env) where
  step-IsServed :
      {stale : ℕ} {l l' : Link} → IsServed stale l → Step env f net_env l l' → IsServed stale l'
  step-IsServed {l} (ds, v) (posts m idle taken) = (ds, posts-Served env l v m idle)
  step-IsServed {l} (ds, v) (refused m idle no_) = (
    ds,
    record {
      queue = v.queue;
      ready = v.ready;
      sent = v.sent;
      explains = v.explains;
      posted_is = v.posted_is;
      answered = v.answered;
      arrived = v.arrived;
      delivered_in = v.delivered_in;
      called = v.called;
    },
  )
  step-IsServed {l} (ds, v) (arrives m rest h) = (ds, arrives-Served f net_env q l v m rest h)
  step-IsServed {l} (ds, v) (serves buf rest h) = elim (List-cases v.queue) [
    | inl none_ ↦ absurd (grind (arith, none_, v.explains, h))
    | inr (m, ms, e) ↦ (ds ++ (m ∷ []), serves-Served f net_env q l v m ms e)
  ]
  step-IsServed {l} (ds, v) (answers buf rest h) = elim (ℕ-cases v.ready) [
    | inl none_ ↦ absurd (grind (arith, none_, v.explains, h))
    | inr (n, e) ↦ (ds, answers-Served f net_env q l v n e)
  ]
  step-IsServed {l} (ds, v) (delivers cmd rest h) =
      (ds, delivers-Served env l v cmd (flying-sent v h))
  step-IsServed {l} (ds, v) (loses answer rest h) = (
    ds,
    record {
      queue = v.queue;
      ready = v.ready;
      sent = v.sent;
      explains = v.explains;
      posted_is = v.posted_is;
      answered = v.answered;
      arrived = let a = v.arrived in omega arith;
      delivered_in = flying-sent v h;
      called = v.called;
    },
  )
  step-IsServed {l} (ds, v) (wakes busy) = (ds, wakes-Served env l v s busy)

  pub run-IsServed :
      {stale : ℕ} {l l' : Link} → IsServed stale l → Run env f net_env l l' → IsServed stale l'
  run-IsServed v done = v
  run-IsServed v (then_ r st) = step-IsServed (run-IsServed v r) st

  pub enough_done :
      {stale : ℕ} {l : Link} {ds : List Message}
      → Served stale l ds
      → successes l.returned ≤ length ds + stale
  enough_done v = let a = v.arrived in let d = v.delivered_in in let e = v.answered in omega arith

  -- In every interleaving of the two cores, from a state where nothing is sent yet: the satellite
  -- driver has been called for a first part of the messages that ipc_service_send took, in their
  -- order and for nothing else, and that part has at least as many messages as calls of ipc_send
  -- have succeeded. The queues are taken to hand out first what was put first, and a take of
  -- sat_sem to succeed exactly when it is available.
  pub ipc_send_serves_in_order :
      {l l' : Link}
      → IsFresh l
      → Run env f net_env l l'
      → (served : List Message) × (rest : List Message) × (l'.posted ≡ served ++ rest)
        × (driven l'.net.trace ≡ asks_all served)
        × (successes l'.returned ≤ length served)
  ipc_send_serves_in_order {l} {l'} h r =
      let (ds, v) = run-IsServed (IsFresh-IsServed h) r in
      (
        ds,
        v.queue ++ l'.air,
        v.posted_is,
        ap (λ r. r.calls) v.explains,
        (let n = enough_done v in omega arith),
      )

  pub everything_done :
      {l : Link} {ds : List Message}
      → Served 0 l ds
      → successes l.returned ≡ length l.returned
      → l.waiting ≡ false
      → l.posted ≡ ds
  everything_done {l} {ds} v in_time idle =
      let enough = enough_done v in
      let called : length l.posted ≡ length l.returned + 0 =
        v.called ∙ ap (λ b. length l.returned + one b) idle in
      elim (List-cases (v.queue ++ l.air)) [
        | inl none_ ↦ v.posted_is ∙ ap (λ r. ds ++ r) none_ ∙ append-nil ds
        | inr (m, rest, e) ↦
            let longer : l.posted ≡ ds ++ (m ∷ rest) = v.posted_is ∙ ap (λ r. ds ++ r) e in
            let n : length l.posted ≡ length ds + suc (length rest) =
              ap length longer ∙ length-append ds (m ∷ rest) in
            absurd (omega arith)
      ]

  -- In every interleaving of the two cores, from a state where nothing is sent yet: as long as
  -- every call of ipc_send that has returned has succeeded, and none is waiting, the satellite
  -- driver has been called for all the messages that ipc_service_send took, in their order and for
  -- nothing else. The queues are taken to hand out first what was put first, and a take of sat_sem
  -- to succeed exactly when it is available.
  pub ipc_send_synchronous :
      {l l' : Link}
      → IsFresh l
      → Run env f net_env l l'
      → successes l'.returned ≡ length l'.returned
      → l'.waiting ≡ false
      → driven l'.net.trace ≡ asks_all l'.posted
  ipc_send_synchronous {l} {l'} h r in_time idle =
      let (ds, v) = run-IsServed (IsFresh-IsServed h) r in
      ap (λ r. r.calls) v.explains ∙ ap asks_all (sym (everything_done v in_time idle))
