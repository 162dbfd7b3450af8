-- ===== src/Link/Late.antt =====
-- What becomes of an answer that comes late: ipc_send of app/src/main.c gives up after three seconds,
-- and does not reset the semaphore.
use hubble_reference_thingy.Common.{ℕ, ◌≡◌, refl, ◌∙◌, true, false, List, [], ◌∷◌, ◌++◌}
use hubble_reference_thingy.Common.Int.{ℤ, is_zero, is_neg}
use hubble_reference_thingy.SatIpc.{Message, base, ok, bytes_of}
use hubble_reference_thingy.App.{AppEnv}
use hubble_reference_thingy.Ipc.{ep_recv, post, wait}
use hubble_reference_thingy.Net.Calls.{NetEnv, Format}
use hubble_reference_thingy.Link.Account.{available, IsSem}
use hubble_reference_thingy.Config.{Config}
use hubble_reference_thingy.Net.Calls.{NetWorld}
use hubble_reference_thingy.Link.Fifo.{reading}
use hubble_reference_thingy.Link.Between.{between, between-available}
use hubble_reference_thingy.Link.Sessions.{Sessions, only, another}
use hubble_reference_thingy.Link.{Link, flying, Run, done, then_, posts, delivers, wakes}

module _ (env : AppEnv) (f : Format) (net_env : NetEnv) where
  -- An answer that comes late is taken for the next one. From any state in which a call of ipc_send
  -- waits, the semaphore is not available, and an answer is on its way, there is a run in which
  -- that call times out and the next message that ipc_service_send takes is acknowledged at once,
  -- although the network core has done nothing in between. A take of sat_sem is taken to succeed
  -- exactly when it is available.
  pub late_answer_taken :
      (l : Link) (m : Message) (rest : List (List ℕ))
      → IsSem env
      → l.waiting ≡ true
      → available l.app.trace ≡ false
      → flying l ≡ bytes_of (base ok) ∷ rest
      → is_neg (post env m (ep_recv ok (wait env l.app).1).1).0 ≡ false
      → (l' : Link) × (first : ℤ) × (second : ℤ) × Run env f net_env l l'
        × (l'.returned ≡ second ∷ first ∷ l.returned)
        × (is_zero first ≡ false)
        × (is_zero second ≡ true)
        × (l'.posted ≡ l.posted ++ (m ∷ []))
        × (l'.net ≡ l.net)
  unfolding ep_recv
  late_answer_taken l m rest s busy empty fly accepted =
      let timed_out = wakes busy in
      let delivered = then_ (then_ done timed_out) (delivers ok rest fly) in
      (
        _,
        _,
        _,
        then_ (then_ delivered (posts m refl accepted)) (wakes refl),
        refl,
        s.found _ _ ∙ empty,
        s.found _ _,
        refl,
        refl,
      )

  -- An answer that comes late is taken in the next session too, whose network core has just started.
  -- From any state in which the last call of ipc_send in a session waits, the semaphore is not available,
  -- and an answer is on its way: that call can time out, the answer arrive, and main go on to the next
  -- session, where the first message that ipc_service_send takes is acknowledged at once, although the
  -- network core has got no message yet. A take of sat_sem is taken to succeed exactly when it is
  -- available.
  pub late_answer_crosses_sessions :
      (c : Config) (fuel : ℕ) (l : Link) (net : NetWorld) (m : Message) (rest : List (List ℕ))
      → IsSem env
      → l.waiting ≡ true
      → available l.app.trace ≡ false
      → flying l ≡ bytes_of (base ok) ∷ rest
      → reading net.trace ≡ reading []
      → is_neg (post env m (between c env fuel (ep_recv ok (wait env l.app).1).1)).0 ≡ false
      → (l' : Link) × (last : ℤ) × (first : ℤ) × Sessions env f net_env l
          ((last ∷ l.returned) ∷ [])
          l'
        × (l'.returned ≡ first ∷ [])
        × (is_zero last ≡ false)
        × (is_zero first ≡ true)
        × (l'.posted ≡ m ∷ [])
        × (l'.net ≡ net)
  unfolding ep_recv
  late_answer_crosses_sessions c fuel l net m rest s busy empty fly quiet accepted =
      let timed_out = wakes busy in
      let ended = then_ (then_ done timed_out) (delivers ok rest fly) in
      let given = (ep_recv ok (wait env l.app).1).1 in
      (
        _,
        _,
        _,
        another (between c env fuel given) net (only ended) refl
            (between-available c env fuel given) quiet
            (then_ (then_ done (posts m refl accepted)) (wakes refl)),
        refl,
        s.found _ _ ∙ empty,
        s.found _ _ ∙ between-available c env fuel given,
        refl,
        refl,
      )
