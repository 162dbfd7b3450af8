-- ===== src/Net/Process.antt =====
-- hubble_sat_process of app/cpunet/src/sat.c: one satellite IPC packet.
use hubble_reference_thingy.Common.{ℕ, List, drop, ◌==◌, if◌then◌else◌}
use hubble_reference_thingy.Common.Int.{ℤ, neg}
use hubble_reference_thingy.Common.Effects.{pure, call}
use hubble_reference_thingy.Net.Calls.{
  NetEnv, NetM, Format, board_packet_send, board_init, board_enable, board_disable,
}
use hubble_reference_thingy.SatIpc.{code, send, init, enable, disable}
use hubble_reference_thingy.Ble.Write.{le_value}

-- `pkt->cmd` and the frames behind it
unfoldable command_of : List ℕ → ℕ
unfolding le_value
command_of pkt = le_value 4 pkt

abbrev frames_of : List ℕ → List ℕ
frames_of pkt = drop 4 pkt

unfoldable pub process_command : Format → NetEnv → ℕ → List ℕ → NetM ℤ
process_command f env cmd pkt =
    if cmd == code send
    then call env (board_packet_send (frames_of pkt))
    else if cmd == code init
    then call env board_init
    else if cmd == code enable
    then call env board_enable
    else if cmd == code disable
    then call env board_disable
    else pure (neg f.einval)

unfoldable pub hubble_sat_process : Format → NetEnv → List ℕ → NetM ℤ
unfolding process_command command_of
hubble_sat_process f env pkt = process_command f env (command_of pkt) pkt
