-- ===== src/Link/Tests.antt =====
-- The theorems on the satellite channel at concrete inputs.
use hubble_reference_thingy.Common.{
  ℕ, ◌+◌, ◌≡◌, ◌≤◌, refl, ap, true, false, List, [], ◌∷◌, ◌++◌, length, get_or, if◌then◌else◌,
  arith,
}
use hubble_reference_thingy.Common.Int.{ℤ, pos, negsuc, is_zero}
use hubble_reference_thingy.SatIpc.{Message, base, init, ok, bytes_of}
use hubble_reference_thingy.App.{AppEnv, Call, k_sem_take, sat_sem}
use hubble_reference_thingy.App.Examples.{table_config, calm, started, answer}
use hubble_reference_thingy.Ipc
use hubble_reference_thingy.Ipc.{post, wait}
use hubble_reference_thingy.Net.Calls.{NetEnv, NetCall, Format, k_fifo_get, board_init}
use hubble_reference_thingy.Net.Threads.{ep_recv, sat_tx_round, sat_rx_round}
use hubble_reference_thingy.Net.Fifo.{pending, IsFifo}
use hubble_reference_thingy.Link.Fifo.{driven, asks_all}
use hubble_reference_thingy.Link.Account.{available, IsSem, successes}
use hubble_reference_thingy.Link.Sessions.{
  Sessions, only, another, sessions_serve_in_order, sessions_synchronous,
}
use hubble_reference_thingy.Net.Calls.{NetWorld}
use hubble_reference_thingy.Link.Late.{late_answer_crosses_sessions}
use hubble_reference_thingy.Link.Synchronous.{IsFresh}
use hubble_reference_thingy.Link.{
  Link, flying, Run, done, then_, posts, arrives, serves, answers, delivers, wakes,
}

abbrev app_ret : List Call → Call → ℤ
app_ret tr (k_sem_take sat_sem _) = if available tr then pos 0 else negsuc 10
app_ret tr k = answer tr k

abbrev app_env : AppEnv
app_env = record calm { ret = app_ret }

abbrev net_out : List NetCall → NetCall → List ℕ
net_out tr (k_fifo_get q) = get_or (pending q tr) 0 []
net_out tr _ = []

abbrev net_env : NetEnv
net_env = record { ret = λ tr k. pos 0; val = λ tr k. 0; out = net_out; others = λ tr k s. s }

abbrev format : Format
format = record {
  hdr_size = λ t. 3;
  payload_len = λ t hdr. 0;
  einval = 22;
  ealready = 120;
  vs_fatal_error = false;
}

app_env-IsSem : IsSem app_env
app_env-IsSem = record { found = λ tr t. ground arith }

net_env-IsFifo : IsFifo net_env
net_env-IsFifo = record { first = λ q tr buf rest h. ap (λ l. get_or l 0 []) h }

abbrev fresh_link : Link
fresh_link = record {
  app = started;
  net = record { state = record { ept_ready = false }; trace = [] };
  posted = [];
  air = [];
  delivered = 0;
  waiting = false;
  returned = [];
}

fresh_link-IsFresh : IsFresh fresh_link
fresh_link-IsFresh = record {
  quiet = refl;
  unposted = refl;
  still = refl;
  undelivered = refl;
  idle = refl;
  unreturned = refl;
  taken = refl;
}

-- a message there and its answer back
round_trip : (l' : Link) × Run app_env format net_env fresh_link l'
unfolding Ipc.ep_recv ep_recv sat_tx_round sat_rx_round
round_trip = (
  _,
  then_
      (then_
        (then_
          (then_ (then_ (then_ done (posts (base init) refl refl)) (arrives (base init) [] refl))
            (serves _ [] refl))
          (answers _ [] refl))
        (delivers ok [] refl))
      (wakes refl),
)

-- the network core, started anew
abbrev anew : NetWorld
anew = record { state = record { ept_ready = false }; trace = [] }

-- the same in a second session
two_sessions : (l' : Link) × Sessions app_env format net_env fresh_link ((pos 0 ∷ []) ∷ []) l'
unfolding round_trip Ipc.ep_recv ep_recv sat_tx_round sat_rx_round
two_sessions = (
  _,
  another round_trip.0.app anew (only round_trip.1) refl refl refl (
      then_
        (then_
          (then_
            (then_ (then_ (then_ done (posts (base init) refl refl)) (arrives (base init) [] refl))
              (serves _ [] refl))
            (answers _ [] refl))
          (delivers ok [] refl))
        (wakes refl)),
)

sessions_synchronous_example : driven two_sessions.0.net.trace ≡ board_init ∷ []
unfolding two_sessions
sessions_synchronous_example =
    sessions_synchronous app_env format net_env app_env-IsSem net_env-IsFifo fresh_link-IsFresh
      two_sessions.1 (refl, tt) refl refl

sessions_serve_in_order_example :
    (served : List Message) × (rest : List Message) × (two_sessions.0.posted ≡ served ++ rest)
    × (driven two_sessions.0.net.trace ≡ asks_all served)
    × (successes two_sessions.0.returned ≤ length served + 1)
sessions_serve_in_order_example =
    sessions_serve_in_order app_env format net_env app_env-IsSem net_env-IsFifo fresh_link-IsFresh
      two_sessions.1

-- an answer that is ready while the call for it still waits
slow :
    (l' : Link) × Run app_env format net_env fresh_link l'
    × (l'.waiting ≡ true)
    × (available l'.app.trace ≡ false)
    × (flying l' ≡ bytes_of (base ok) ∷ [])
unfolding ep_recv sat_tx_round sat_rx_round Ipc.ep_recv
slow = (
  _,
  then_
      (then_ (then_ (then_ done (posts (base init) refl refl)) (arrives (base init) [] refl))
        (serves _ [] refl))
      (answers _ [] refl),
  refl,
  refl,
  refl,
)

late_answer_crosses_sessions_example :
    (l' : Link) × (last : ℤ) × (first : ℤ) × Sessions app_env format net_env slow.0
      ((last ∷ slow.0.returned) ∷ [])
      l'
    × (l'.returned ≡ first ∷ [])
    × (is_zero last ≡ false)
    × (is_zero first ≡ true)
    × (l'.posted ≡ base init ∷ [])
    × (l'.net ≡ anew)
late_answer_crosses_sessions_example =
    late_answer_crosses_sessions app_env format net_env table_config 3 slow.0 anew (base init) []
      app_env-IsSem slow.2 slow.3 slow.4 refl refl
