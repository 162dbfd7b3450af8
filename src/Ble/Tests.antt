-- ===== src/Ble/Tests.antt =====
-- The theorems on app/src/ble.c at concrete inputs.
use hubble_reference_thingy.Common.{
  ℕ, ◌+◌, ◌-◌, ◌^◌, ◌≡◌, refl, true, false, List, [], ◌∷◌, arith, length, take,
}
use hubble_reference_thingy.Common.Int.{pos}
use hubble_reference_thingy.App.{Pass, u64, hubble_time_set, k_uptime_get}
use hubble_reference_thingy.App.Examples.{table_config, calm, fresh_sat, fresh, started}
use hubble_reference_thingy.Sat.Table.{IsTable}
use hubble_reference_thingy.Ble.Advertise.{ble_work_handler}
use hubble_reference_thingy.Ble.Write.{pkt_cmd, cmd_setutc, set_ephemeris, chr_write_cb}
use hubble_reference_thingy.Ble.Ephemeris.{
  le_bytes, ephemeris_message, Registers, set_ephemeris-Registers,
}
use hubble_reference_thingy.Sat.Rounds.{waited_for}
use hubble_reference_thingy.Ble.Served.{ephemeris_served}
use hubble_reference_thingy.Ble.Bounds.{chr_write_cb-take, chr_write_cb_utc}
use hubble_reference_thingy.Ble.Policy.{
  OthersKeepChoice, auto_on, auto_off, user_off, serve_all, IsSwitchedOff, user_off_persists,
}
use hubble_reference_thingy.Ble.Beacon.{renewal}
use hubble_reference_thingy.Ble.Queued.{
  periods, requests, starts, HasData, queued_renewal_outlives_disable,
}
use hubble_reference_thingy.Ble.Switch.{ble_disable}

abbrev passes : List Pass
passes =
    record { timestamp = 1000000500; duration = 60 }
    ∷ record { timestamp = 1000004000; duration = 30 }
    ∷ []

abbrev message : List ℕ
message = ephemeris_message passes

fresh_sat-IsTable : IsTable fresh_sat
fresh_sat-IsTable = record { array = refl; idx_in = omega arith; count_in = omega arith }

calm-OthersKeepChoice : OthersKeepChoice calm
calm-OthersKeepChoice = record { keep = λ tr k a. refl }

set_ephemeris-Registers_example :
    Registers passes fresh_sat (set_ephemeris table_config message (length message) fresh_sat)
set_ephemeris-Registers_example =
    set_ephemeris-Registers table_config passes refl fresh_sat-IsTable
      (omega arith, omega arith, (omega arith, omega arith, tt)) (omega arith)

user_off_persists_example :
    IsSwitchedOff (serve_all table_config calm (user_off ∷ auto_off ∷ auto_on ∷ []) started)
user_off_persists_example =
    user_off_persists table_config calm calm-OthersKeepChoice (auto_off ∷ auto_on ∷ []) started tt

-- fourteen bytes that say that they hold two passes, and more memory behind them
chr_write_cb-take_example :
    chr_write_cb table_config calm (take 14 message) 14 false started
    ≡ chr_write_cb table_config calm message 14 false started
chr_write_cb-take_example =
    chr_write_cb-take table_config calm message 14 false started (omega arith)

chr_write_cb_utc_example :
    chr_write_cb table_config calm
      (pkt_cmd ∷ cmd_setutc ∷ le_bytes 8 1000000000000)
      10
      false
      started
    ≡ (
      pos 10,
      record {
        state = record fresh { utc_time = u64 (1000000000000 + 2 ^ 64 - 0) };
        trace = k_uptime_get ∷ hubble_time_set 1000000000000 ∷ [];
      },
    )
chr_write_cb_utc_example = chr_write_cb_utc table_config calm 1000000000000 started (omega arith)

calm-HasData : HasData calm
calm-HasData = record { data_ready = λ tr. refl }

queued_renewal_outlives_disable_example :
    (renewal (ble_disable calm true started).1.trace ≡ false)
    × (let w =
          periods table_config calm 3
            (ble_work_handler table_config calm (ble_disable calm true started).1).1 in
        IsSwitchedOff w
        × (renewal w.trace ≡ true)
        × (requests w.trace ≡ 4 + requests started.trace)
        × (starts w.trace ≡ 4 + starts started.trace))
queued_renewal_outlives_disable_example =
    queued_renewal_outlives_disable table_config calm started 3 calm-HasData

-- the rounds' searches: before the first pass, and when it has begun
ephemeris_served_example :
    waited_for
      (1000000000 ∷ 1000000500 ∷ [])
      (set_ephemeris table_config message (length message) fresh_sat)
    ≡ passes
ephemeris_served_example =
    ephemeris_served table_config passes (1000000000 ∷ 1000000500 ∷ []) refl fresh_sat-IsTable refl
      (omega arith, omega arith, (omega arith, omega arith, tt)) (omega arith)
      (omega arith, omega arith, (omega arith, omega arith, tt))
