-- ===== src/Lib.antt =====
-- The firmware of the Hubble reference application for the Thingy:53: an application core
-- (app/src, app/common) and a network core (app/cpunet/src), both C on Zephyr.
--
-- The application core beacons over Bluetooth. A companion writes the time and, in the build without
-- pass prediction, a table of satellite passes. Rounds of main schedule the next pass, let Bluetooth
-- run until a timer fires, stop it, start the network core with the satellite stack, transmit, and stop
-- the network core again. A button and shell commands switch Bluetooth, choose the payload, set the
-- key. The network core is an HCI bridge or a satellite server, as a mark in shared memory says.
--
-- Which file models what:
--   Config: Kconfig options, and the constants of Zephyr and the Hubble SDK that the code names.
--   SatIpc: app/common/sat_ipc.h. Sat: app/src/sat_board.c (Sat.Passes: sat_pass_add,
--   sat_next_transmission_get; Sat.Schedule: sat_schedule_next_transmission; Sat.Payload and
--   Sat.Transmit: sat_transmit). Ipc: ipc_send and its callbacks of app/src/main.c, and the board
--   functions of app/src/sat_board.c. Ble: app/src/ble.c (Ble.Write: _chr_write_cb; Ble.Switch:
--   ble_enable, ble_disable; Ble.Service: what is registered; Ble.Advertise: the rest). Main:
--   app/src/main.c (Main.Key: crypto_key_set; Main.Network: _sat_enable, _sat_disable; Main.Loop:
--   main). Button: app/src/button.c. Shell: app/src/shell.c. Drivers: app/src/led.c,
--   app/src/sensor.c, app/src/nvs.c. Net: app/cpunet/src/main.c and app/cpunet/src/sat.c. App: the
--   application core's C globals (App.State), the calls that leave its sources (App.Calls), and what
--   a trace of calls says of the radio's mutex (App.Locks), of the network core (App.Stack) and of
--   main's sleep (App.Wake). Device: the application core as the kernel runs it, one event for each
--   function that the sources register (K_TIMER_DEFINE, K_WORK_DEFINE, BT_CONN_CB_DEFINE,
--   SHELL_CMD_REGISTER, SYS_INIT and the like), and sequences of events. Link: both cores and the
--   satellite channel between them, as a relation of steps, each a piece of the code of Ipc or
--   Net.Threads, and sessions between which the network core is started anew. Common: lists as C
--   arrays, numbers, and the monad.
--
-- State and calls. A function is a state-passing function over a world: the C globals, and the trace
-- of the calls that left the program, the latest first. What such a call returns, writes through an
-- out-pointer, and lets other threads do to the globals while it blocks, is a parameter (Env), a
-- function of the calls made before. So a theorem holds whatever Zephyr, the drivers and the Hubble
-- SDK do, unless a hypothesis states what they document. Other threads run only in calls that block:
-- taking a mutex or a semaphore, sleeping, sending a packet; a theorem that needs a global left alone
-- meanwhile says so. What they call meanwhile is not in the trace, which holds the calls of the
-- function itself. A k_sem_take or k_mutex_lock with K_FOREVER returns 0 or never; the model runs on
-- past one whose result is another, and Main.Waits reads off a trace whether there is such a wait. The
-- target is little-endian; an unsigned integer wraps by `% 2 ^ w`. A memcpy past the end of its
-- destination lengthens the list, so that the length tells whether it stayed inside.
--
-- Loops. The pass table is searched by recursion on the entries that are left, entries of a message by
-- recursion on their count. The loops that ask the outside world (the search for a predicted pass,
-- the sends of a window, hci_ipc_send) run on fuel; the results below say how much is enough. The
-- endless loops of main and of the network core's threads are functions for one round, and main's is
-- also one for any number of rounds.
--
-- Left out: log output; the date that gmtime_r makes of a time; priorities, stack sizes and pool
-- sizes; the SDK and Zephyr themselves; app/src/sat_params.c, which the
-- build generates; the Python scripts.
pub mod Common
pub mod Config
pub mod SatIpc
pub mod App
pub mod Sat
pub mod Drivers
pub mod Ipc
pub mod Ble
pub mod Main
pub mod Button
pub mod Shell
pub mod Net
pub mod Device
pub mod Link
