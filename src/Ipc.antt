-- ===== src/Ipc.antt =====
-- The application core's end of the satellite IPC channel: ipc_send and the callbacks of
-- app/src/main.c, and the board functions of app/src/sat_board.c that the SDK calls.
pub mod Board
use hubble_reference_thingy.Common.{ℕ, List, if◌then◌else◌}
use hubble_reference_thingy.Common.Int.{ℤ, pos, is_neg}
use hubble_reference_thingy.Common.Effects.{pure, ◌>>=◌, ◌>>◌, call, block, emit}
use hubble_reference_thingy.Common.Text.{codes}
use hubble_reference_thingy.SatIpc.{
  SatCommand, ok, send, enable, disable, Message, base, packet, IpcEptCfg,
}
use hubble_reference_thingy.App.{
  AppEnv, AppM, sat_sem, bound_sem, seconds, ipc_service_send, k_sem_take, k_sem_give,
}

-- IPC_TIMEOUT_S
abbrev pub ipc_timeout_s : ℕ
ipc_timeout_s = 3

-- _ep_recv, on the command of the message
unfoldable pub ep_recv : SatCommand → AppM (Unit {0})
ep_recv ok = emit (k_sem_give sat_sem)
ep_recv _ = pure tt

-- _ep_bound
unfoldable pub ep_bound : AppM (Unit {0})
ep_bound = emit (k_sem_give bound_sem)

-- ep_cfg
abbrev pub ep_cfg : IpcEptCfg (AppM (Unit {0})) (SatCommand → AppM (Unit {0}))
ep_cfg = record { name = codes "sat_ipc"; bound = ep_bound; received = ep_recv }

module _ (env : AppEnv) where
  -- the two halves of ipc_send, between which the other core runs
  abbrev pub post : Message → AppM ℤ
  post m = call env (ipc_service_send m)

  abbrev pub wait : AppM ℤ
  wait = block env (k_sem_take sat_sem (seconds ipc_timeout_s))

  unfoldable pub ipc_send : Message → AppM ℤ
  ipc_send m = do ret ← post m; (if is_neg ret then pure ret else wait)

  unfoldable hubble_sat_board_init : AppM ℤ
  hubble_sat_board_init = pure (pos 0)

  pub hubble_sat_board_enable : AppM ℤ
  unfolding ipc_send
  hubble_sat_board_enable = do ipc_send (base enable); pure (pos 0)

  pub hubble_sat_board_disable : AppM ℤ
  unfolding ipc_send
  hubble_sat_board_disable = do ipc_send (base disable); pure (pos 0)

  pub hubble_sat_board_packet_send : List ℕ → AppM ℤ
  unfolding ipc_send
  hubble_sat_board_packet_send frames = do ipc_send (packet send frames); pure (pos 0)
