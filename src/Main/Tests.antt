-- ===== src/Main/Tests.antt =====
-- The theorems on app/src/main.c at concrete inputs.
use hubble_reference_thingy.Common.{
  ℕ, ◌+◌, ◌/◌, ◌≤◌, ◌≡◌, refl, ap, ◌∙◌, ◌==◌, if◌then◌else◌, true, false, not, ◌&&◌, Option, none,
  some, List, [], ◌∷◌, arith, replicate, length, take, drop,
}
use hubble_reference_thingy.Common.Int.{ℤ, pos, negsuc}
use hubble_reference_thingy.App.{
  AppEnv, Call, radio_mutex, k_mutex_lock, base64_decode, nvs_read, nvs_write, nvs_delete,
  ipc_service_open_instance, ipc_service_deregister_endpoint,
}
use hubble_reference_thingy.App.Examples.{
  table_config, predicted_config, table_config-IsConfig, answer, number, calm, fresh, started,
  now_ms,
}
use hubble_reference_thingy.App.Stack.{core}
use hubble_reference_thingy.Sat.Schedule.{find_pass, sat_schedule_next_transmission}
use hubble_reference_thingy.Sat.Transmit.{
  send_once, finish_transmit, send_packet, transmit_packet, sat_transmit,
}
use hubble_reference_thingy.Main.Key.{crypto_key_set, key_get}
use hubble_reference_thingy.Main.Network.{ble_stack, sat_enable}
use hubble_reference_thingy.Common.Effects.{block}
use hubble_reference_thingy.Ble.Switch.{ble_enable, ble_disable}
use hubble_reference_thingy.Ble.Policy.{bt_on}
use hubble_reference_thingy.Main.Exclusive.{
  exclusive, satellite_session-exclusive, user_on_overlaps,
}
use hubble_reference_thingy.Sat.Tests.{
  next_pass, two_passes, with_passes, two_passes-IsTable, calm-IsClock, calm-OthersKeepInterval,
}
use hubble_reference_thingy.Sat.Table.{pending}
use hubble_reference_thingy.Sat.Queue.{drop_started}
use hubble_reference_thingy.Sat.Schedule.{ms_per_s}
use hubble_reference_thingy.Sat.Window.{sends}
use hubble_reference_thingy.Main.Transmits.{IsPrompt}
use hubble_reference_thingy.Main.Serves.{OthersKeepPass}
use hubble_reference_thingy.Main.Returns.{main_round_returns}
use hubble_reference_thingy.Main.Waits.{hangs, WaitsReturn}
use hubble_reference_thingy.Sat.Schedule.{find_pass, sat_schedule_next_transmission}
use hubble_reference_thingy.Main.Boot.{waits_first, marks_first, returns_zero, boot_holds_back}
use hubble_reference_thingy.Main.Loop.{boot, satellite_session, end_round, round_after, main_round}
use hubble_reference_thingy.Main.Core.{EndsRound, main_round-EndsRound, failed_open_leaves_running}
use hubble_reference_thingy.Main.Stored.{
  stored, IsNvs, DecodesWithin, restart, key_get-crypto_key_set, crypto_key_set_keeps_tail,
}

round_completes : (main_round predicted_config calm 9 started).0 ≡ true
unfolding main_round round_after sat_schedule_next_transmission find_pass end_round
    satellite_session sat_enable sat_transmit transmit_packet finish_transmit send_packet send_once
round_completes = refl

main_round-EndsRound_example : EndsRound (main_round predicted_config calm 9 started).1
main_round-EndsRound_example = main_round-EndsRound predicted_config calm 9 started round_completes

-- surroundings in which the IPC instance does not open
abbrev closed_ret : List Call → Call → ℤ
closed_ret tr ipc_service_open_instance = negsuc 4
closed_ret tr ipc_service_deregister_endpoint = negsuc 1
closed_ret tr k = answer tr k

abbrev closed : AppEnv
closed = record calm { ret = closed_ret }

failed_open_leaves_running_example :
    let (complete, w') = satellite_session table_config closed 9 started in
    (complete ≡ true) × ((core w'.trace).running ≡ true)
failed_open_leaves_running_example =
    failed_open_leaves_running table_config closed 9 started (λ tr. refl) (λ tr. refl) (λ tr. refl)

-- a storage that keeps what is written, and a decoder that gives sixteen bytes
abbrev found : Option (List ℕ) → ℤ
found none = negsuc 1
found (some bytes) = pos (length bytes)

abbrev content_of : Option (List ℕ) → List ℕ
content_of none = []
content_of (some bytes) = bytes

-- what a storage holds whose writes and deletes succeed
abbrev held : ℕ → List Call → Option (List ℕ)
held id [] = none
held id (nvs_write i bytes ∷ tr) = if i == id then some bytes else held id tr
held id (nvs_delete i ∷ tr) = if i == id then none else held id tr
held id (_ ∷ tr) = held id tr

abbrev storage_ret : List Call → Call → ℤ
storage_ret tr (nvs_read id len) = found (held id tr)
storage_ret tr (nvs_write id bytes) = pos (length bytes)
storage_ret tr (nvs_delete id) = pos 0
storage_ret tr k = answer tr k

abbrev storage_out : List Call → Call → List ℕ
storage_out tr (nvs_read id len) = content_of (held id tr)
storage_out tr (base64_decode key) = replicate 15 7
storage_out tr k = []

abbrev storage : AppEnv
storage = record { ret = storage_ret; val = number; out = storage_out; others = λ tr k a. a }

held-stored : (id : ℕ) (tr : List Call) → held id tr ≡ stored storage id tr
held-stored id [] = refl
held-stored id (k ∷ tr) = ground (arith, held-stored id tr)

storage-IsNvs : IsNvs storage
storage-IsNvs = record {
  reads = λ tr id len bytes h size.
      let e = held-stored id tr ∙ h in (rw e (ap pos size), ap content_of e);
}

storage-DecodesWithin : DecodesWithin storage 16
storage-DecodesWithin = record { within = λ tr key. omega arith }

abbrev key_text : List ℕ
key_text = replicate 24 65

key_get-crypto_key_set_example :
    let w' = (crypto_key_set table_config storage key_text started).1 in
    let r = key_get table_config storage (restart fresh w'.trace) in
    (r.0 ≡ pos 0) × (r.1.state.hubble_key ≡ w'.state.hubble_key)
unfolding crypto_key_set
key_get-crypto_key_set_example =
    key_get-crypto_key_set table_config storage key_text started fresh table_config-IsConfig
      storage-IsNvs storage-DecodesWithin refl refl refl refl

crypto_key_set_keeps_tail_example :
    let now = (crypto_key_set table_config storage key_text started).1.state.hubble_key in
    (take 15 now ≡ replicate 15 7) × (drop 15 now ≡ 0 ∷ [])
unfolding crypto_key_set
crypto_key_set_keeps_tail_example =
    crypto_key_set_keeps_tail table_config storage key_text started table_config-IsConfig refl

boot_holds_back_example :
    let (result, w') = boot table_config calm started in
    (waits_first w'.trace ≡ true)
    × (marks_first w'.trace ≡ true)
    × (core w'.trace ≡ record (core []) { mark = ble_stack })
    × (returns_zero result ≡ false)
boot_holds_back_example = boot_holds_back table_config calm started refl

satellite_session-exclusive_example :
    exclusive (satellite_session table_config calm 9 started).1.trace
    ≡ (not (bt_on started.trace) && exclusive started.trace)
satellite_session-exclusive_example = satellite_session-exclusive table_config calm 9 started

user_on_overlaps_example :
    let off = (ble_disable calm false started).1 in
    let on = (ble_enable table_config calm true off).1 in
    let locked = (block calm (k_mutex_lock radio_mutex) on).1 in
    exclusive (satellite_session table_config calm 9 locked).1.trace ≡ false
user_on_overlaps_example = user_on_overlaps table_config calm 9 started

calm-WaitsReturn : WaitsReturn calm
calm-WaitsReturn = record { wakes = λ tr h. refl; locked = λ tr. refl; bound = λ tr. refl }

pub calm-IsPrompt : IsPrompt calm
calm-IsPrompt = record { prompt = λ tr. omega arith }

pub calm-OthersKeepPass : OthersKeepPass calm
calm-OthersKeepPass = record { keep = λ tr k a p q h. h }

pub pass_found : drop_started (now_ms / ms_per_s) (pending two_passes) ≡ next_pass ∷ []
unfolding drop_started
pass_found = refl

-- three intervals of five seconds are longer than a pass of twelve
main_round_returns_example :
    let (complete, w') = main_round table_config calm 4 with_passes in
    (complete ≡ true)
    × (hangs calm w'.trace ≡ hangs calm with_passes.trace)
    × (sends w'.trace ≤ sends with_passes.trace + 3)
main_round_returns_example =
    main_round_returns table_config calm next_pass [] 4 3 with_passes refl calm-WaitsReturn
      calm-IsClock calm-IsPrompt calm-OthersKeepInterval calm-OthersKeepPass two_passes-IsTable
      pass_found (omega arith) (omega arith)
