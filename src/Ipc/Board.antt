-- ===== src/Ipc/Board.antt =====
-- What the board functions of app/src/sat_board.c tell the SDK.
use hubble_reference_thingy.Common.{ℕ, ◌≡◌, refl, List, [], ◌∷◌, arith}
use hubble_reference_thingy.Common.Int.{ℤ, pos}
use hubble_reference_thingy.SatIpc.{send, enable, disable, Message, base, packet}
use hubble_reference_thingy.App.{AppEnv, AppM, AppWorld, Call, ipc_service_send}
use hubble_reference_thingy.Ipc.{
  ipc_send, hubble_sat_board_enable, hubble_sat_board_disable, hubble_sat_board_packet_send,
}

-- the messages that were given to the IPC service
abbrev sent_step : Call → List Message → List Message
sent_step (ipc_service_send m) ms = m ∷ ms
sent_step _ ms = ms

abbrev pub sent : List Call → List Message
sent [] = []
sent (k ∷ tr) = sent_step k (sent tr)

-- the functions with a message
pub data Request : Type 0 where
  enables disables : Request
  sends : List ℕ → Request

abbrev pub message_of : Request → Message
message_of enables = base enable
message_of disables = base disable
message_of (sends frames) = packet send frames

abbrev pub perform : AppEnv → Request → AppM ℤ
perform env enables = hubble_sat_board_enable env
perform env disables = hubble_sat_board_disable env
perform env (sends frames) = hubble_sat_board_packet_send env frames

ipc_send-sent :
    (env : AppEnv) (m : Message) (w : AppWorld) → sent (ipc_send env m w).1.trace ≡ m ∷ sent w.trace
unfolding ipc_send
ipc_send-sent env m w = ground arith

-- Each of the three board functions gives the IPC service its message, once, and returns 0: also where
-- the service refuses it, and where no answer comes in time.
pub board_functions_return_0 :
    (env : AppEnv) (r : Request) (w : AppWorld)
    → ((perform env r w).0 ≡ pos 0) × (sent (perform env r w).1.trace ≡ message_of r ∷ sent w.trace)
unfolding hubble_sat_board_enable hubble_sat_board_disable hubble_sat_board_packet_send
board_functions_return_0 env enables w = (refl, ipc_send-sent env (base enable) w)
board_functions_return_0 env disables w = (refl, ipc_send-sent env (base disable) w)
board_functions_return_0 env (sends frames) w = (refl, ipc_send-sent env (packet send frames) w)
