-- ===== src/Link.antt =====
-- The two cores and the channel between them: ipc_send and _ep_recv of app/src/main.c on one side;
-- ep_recv, sat_tx_thread and the loop of main of app/cpunet/src/main.c on the other. A step is a piece
-- of one core's code; the steps of the two cores come in any order.
pub mod Fifo
pub mod Account
pub mod Served
pub mod Synchronous
pub mod Sessions
pub mod Between
pub mod Late
pub mod Tests
use hubble_reference_thingy.Common.{ℕ, ◌+◌, ◌≡◌, Bool, true, false, List, [], ◌∷◌, ◌++◌, drop, suc}
use hubble_reference_thingy.Common.Int.{ℤ, is_neg}
use hubble_reference_thingy.SatIpc.{SatCommand, Message, base, bytes_of}
use hubble_reference_thingy.App.{AppEnv, AppWorld}
use hubble_reference_thingy.Ipc
use hubble_reference_thingy.Ipc.{post, wait}
use hubble_reference_thingy.Net.Calls.{NetEnv, NetWorld, Format, tx_queue, rx_queue}
use hubble_reference_thingy.Net.Threads
use hubble_reference_thingy.Net.Threads.{sat_tx_round, sat_rx_round}
use hubble_reference_thingy.Net.Fifo.{pending}
use hubble_reference_thingy.Link.Fifo.{said}

pub record Link : Type 0 where
  pub app : AppWorld
  pub net : NetWorld
  -- what ipc_service_send has accepted, the oldest first, and what of it is still on its way
  pub posted : List Message
  pub air : List Message
  -- how many of the network core's answers have arrived or are lost
  pub delivered : ℕ
  -- whether a call of ipc_send waits for its answer, and what those before it returned, the latest
  -- first
  pub waiting : Bool
  pub returned : List ℤ

-- the answers on their way
abbrev pub flying : Link → List (List ℕ)
flying l = drop l.delivered (said l.net.trace)

module _ (env : AppEnv) (f : Format) (net_env : NetEnv) where
  pub data Step (l : Link) : Link → Type 0 where
    -- ipc_send, up to its k_sem_take
    posts :
        (m : Message)
        → l.waiting ≡ false
        → is_neg (post env m l.app).0 ≡ false
        → Step l (record l {
          app = (post env m l.app).1;
          posted = l.posted ++ (m ∷ []);
          air = l.air ++ (m ∷ []);
          waiting = true;
        })
    -- the call is refused: ipc_send returns at once
    refused :
        (m : Message)
        → l.waiting ≡ false
        → is_neg (post env m l.app).0 ≡ true
        → Step l (record l { app = (post env m l.app).1 })
    -- ep_recv of the network core
    arrives :
        (m : Message) (rest : List Message)
        → l.air ≡ m ∷ rest
        → Step l (record l {
          air = rest;
          net = ((Threads.ep_cfg net_env).received (bytes_of m) l.net).1;
        })
    -- a round of sat_tx_thread, which waits for a buffer
    serves :
        (buf : List ℕ) (rest : List (List ℕ))
        → pending tx_queue l.net.trace ≡ buf ∷ rest
        → Step l (record l { net = (sat_tx_round f net_env l.net).1 })
    -- a round of the loop of main, which waits for one too
    answers :
        (buf : List ℕ) (rest : List (List ℕ))
        → pending rx_queue l.net.trace ≡ buf ∷ rest
        → Step l (record l { net = (sat_rx_round f net_env l.net).1 })
    -- _ep_recv of the application core
    delivers :
        (cmd : SatCommand) (rest : List (List ℕ))
        → flying l ≡ bytes_of (base cmd) ∷ rest
        → Step l (record l { app = (Ipc.ep_cfg.received cmd l.app).1; delivered = suc l.delivered })
    -- the network core's ipc_service_send has failed
    loses :
        (answer : List ℕ) (rest : List (List ℕ))
        → flying l ≡ answer ∷ rest
        → Step l (record l { delivered = suc l.delivered })
    -- the k_sem_take of ipc_send comes back, and ipc_send with it: in time or not
    wakes :
        l.waiting ≡ true
        → Step l (record l {
          app = (wait env l.app).1;
          waiting = false;
          returned = (wait env l.app).0 ∷ l.returned;
        })

  -- any number of steps
  pub data Run (l : Link) : Link → Type 0 where
    done : Run l l
    then_ : {l' l'' : Link} → Run l l' → Step l' l'' → Run l l''
