-- ===== src/Link/Served.antt =====
-- What the application core knows when ipc_send (app/src/main.c) returns: how many of its messages the
-- network core (app/cpunet/src/main.c) has served.
use hubble_reference_thingy.Common.{
  ℕ, suc, ◌≤◌, ◌≡◌, refl, sym, ap, ◌∙◌, true, false, List, [], ◌∷◌, ◌++◌, map, append_assoc,
  length-append, replicate, arith,
}
use hubble_reference_thingy.SatIpc.{SatCommand, Message, bytes_of}
use hubble_reference_thingy.App.{AppEnv, seconds}
use hubble_reference_thingy.Ipc.{ep_recv, post, wait, ipc_timeout_s}
use hubble_reference_thingy.Net.Calls.{NetEnv, Format}
use hubble_reference_thingy.Net.Threads
use hubble_reference_thingy.Net.Threads.{sat_tx_round, sat_rx_round}
use hubble_reference_thingy.Net.Fifo.{IsFifo}
use hubble_reference_thingy.Link.Fifo.{
  asks, asks_all, Reading, answer_bytes, ep_recv-reading, sat_tx_round-reading,
  sat_rx_round-reading,
}
use hubble_reference_thingy.Link.{Link}
use hubble_reference_thingy.Link.Account.{
  IsSem, one, Served, asks_all-snoc, replicate-snoc, map-snoc,
}

module _ (env : AppEnv) (l : Link) {ds : List Message} {stale : ℕ} (v : Served stale l ds) where
  pub posts-Served :
      (m : Message)
      → l.waiting ≡ false
      → Served stale
          (record l {
            app = (post env m l.app).1;
            posted = l.posted ++ (m ∷ []);
            air = l.air ++ (m ∷ []);
            waiting = true;
          })
          ds
  posts-Served m idle = record {
    queue = v.queue;
    ready = v.ready;
    sent = v.sent;
    explains = v.explains;
    posted_is =
        ap (λ p. p ++ (m ∷ [])) v.posted_is
        ∙ append_assoc ds (v.queue ++ l.air) (m ∷ [])
        ∙ ap (λ p. ds ++ p) (append_assoc v.queue l.air (m ∷ []));
    answered = v.answered;
    arrived = v.arrived;
    delivered_in = v.delivered_in;
    called =
        let e = v.called in
        let none : one l.waiting ≡ 0 = rw idle refl in
        omega (arith, length-append l.posted (m ∷ []));
  }

  pub delivers-Served :
      (cmd : SatCommand)
      → suc l.delivered ≤ v.sent
      → Served stale (record l { app = (ep_recv cmd l.app).1; delivered = suc l.delivered }) ds
  unfolding ep_recv
  delivers-Served cmd h = record {
    queue = v.queue;
    ready = v.ready;
    sent = v.sent;
    explains = v.explains;
    posted_is = v.posted_is;
    answered = v.answered;
    arrived = let a = v.arrived in ground arith;
    delivered_in = h;
    called = v.called;
  }

  pub wakes-Served :
      IsSem env
      → l.waiting ≡ true
      → Served stale
          (record l {
            app = (wait env l.app).1;
            waiting = false;
            returned = (wait env l.app).0 ∷ l.returned;
          })
          ds
  wakes-Served s busy = record {
    queue = v.queue;
    ready = v.ready;
    sent = v.sent;
    explains = v.explains;
    posted_is = v.posted_is;
    answered = v.answered;
    arrived =
        let a = v.arrived in let f = s.found l.app.trace (seconds ipc_timeout_s) in ground arith;
    delivered_in = v.delivered_in;
    called = let e = v.called in let some_ : one l.waiting ≡ 1 = rw busy refl in omega arith;
  }

module _ (f : Format) (env : NetEnv) (q : IsFifo env) (l : Link) {ds : List Message} {stale : ℕ}
    (v : Served stale l ds) where
  pub arrives-Served :
      (m : Message) (rest : List Message)
      → l.air ≡ m ∷ rest
      → Served stale (record l { air = rest; net = (Threads.ep_recv env (bytes_of m) l.net).1 }) ds
  arrives-Served m rest h = record {
    queue = v.queue ++ (m ∷ []);
    ready = v.ready;
    sent = v.sent;
    explains =
        ep_recv-reading env (bytes_of m) l.net
        ∙ ap {A = Reading} (λ r. record r { tx = r.tx ++ (bytes_of m ∷ []) }) v.explains
        ∙ ap
            (λ t. record {
              tx = t;
              rx = replicate v.ready answer_bytes;
              answers = replicate v.sent answer_bytes;
              calls = asks_all ds;
            })
            (map-snoc v.queue m);
    posted_is =
        v.posted_is
        ∙ ap (λ a. ds ++ (v.queue ++ a)) h
        ∙ ap (λ p. ds ++ p) (sym (append_assoc v.queue (m ∷ []) rest));
    answered = v.answered;
    arrived = v.arrived;
    delivered_in = v.delivered_in;
    called = v.called;
  }

  pub serves-Served :
      (m : Message) (rest : List Message)
      → v.queue ≡ m ∷ rest
      → Served stale (record l { net = (sat_tx_round f env l.net).1 }) (ds ++ (m ∷ []))
  serves-Served m rest h = record {
    queue = rest;
    ready = suc v.ready;
    sent = v.sent;
    explains =
        sat_tx_round-reading f env m (map bytes_of rest) l.net q
          (ap (λ r. r.tx) v.explains ∙ ap (map bytes_of) h)
        ∙ ap
            (λ r. record {
              tx = map bytes_of rest;
              rx = r.rx ++ (answer_bytes ∷ []);
              answers = r.answers;
              calls = r.calls ++ asks m;
            })
            v.explains
        ∙ grind (arith, replicate-snoc v.ready answer_bytes, asks_all-snoc ds m);
    posted_is =
        v.posted_is
        ∙ ap (λ p. ds ++ (p ++ l.air)) h
        ∙ sym (append_assoc ds (m ∷ []) (rest ++ l.air));
    answered = let a = v.answered in omega (arith, length-append ds (m ∷ []));
    arrived = v.arrived;
    delivered_in = v.delivered_in;
    called = v.called;
  }

  pub answers-Served :
      (n : ℕ) → v.ready ≡ suc n → Served stale (record l { net = (sat_rx_round f env l.net).1 }) ds
  answers-Served n h = record {
    queue = v.queue;
    ready = n;
    sent = suc v.sent;
    explains =
        sat_rx_round-reading env (replicate n answer_bytes) f l.net q
          (ap (λ r. r.rx) v.explains ∙ ap (λ k. replicate k answer_bytes) h)
        ∙ ap {A = Reading}
            (λ r. record r {
              rx = replicate n answer_bytes;
              answers = r.answers ++ (answer_bytes ∷ []);
            })
            v.explains
        ∙ grind (arith, replicate-snoc v.sent answer_bytes);
    posted_is = v.posted_is;
    answered = let a = v.answered in omega arith;
    arrived = v.arrived;
    delivered_in = let d = v.delivered_in in omega arith;
    called = v.called;
  }
