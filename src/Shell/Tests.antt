-- ===== src/Shell/Tests.antt =====
-- The theorems on app/src/shell.c at concrete inputs.
use hubble_reference_thingy.Common.{ℕ, ◌≡◌, refl, [], ◌∷◌, ◌++◌, arith, replicate}
use hubble_reference_thingy.Common.Int.{ℤ, pos}
use hubble_reference_thingy.App.{App, AppWorld, Pass, with_sat}
use hubble_reference_thingy.App.Examples.{
  table_config, table_config-IsConfig, calm, fresh_sat, fresh, started,
}
use hubble_reference_thingy.Sat.Passes.{no_pass}
use hubble_reference_thingy.Sat.Queue
use hubble_reference_thingy.Sat.Table.{IsTable}
use hubble_reference_thingy.Main.Key.{crypto_key_is_set}
use hubble_reference_thingy.Shell.Status.{cmd_status}
use hubble_reference_thingy.Shell.Report.{shown, cmd_status_shows_upcoming}
use hubble_reference_thingy.Sat.Payload.{payload_get}
use hubble_reference_thingy.Common.Text.{codes}
use hubble_reference_thingy.Shell.Commands.{cmd_retransmission, cmd_payload}
use hubble_reference_thingy.Shell.Numbers.{no_digit, digit, cmd_retransmission-text_of}
use hubble_reference_thingy.Shell.Options.{payload_get-cmd_payload}

-- `retransmission 266` sets ten seconds
cmd_retransmission-text_of_example :
    let r =
      cmd_retransmission table_config calm (codes "retransmission" ∷ codes "266" ∷ []) started in
    ◌≡◌ {A = ℤ × App}
      (r.0, r.1.state)
      (pos 0, with_sat (λ s. record s { retransmission_s = 10 }) fresh)
cmd_retransmission-text_of_example =
    cmd_retransmission-text_of table_config calm (codes "retransmission") 2 (6 ∷ 6 ∷ []) started
      (digit (omega arith) (digit (omega arith) (digit (omega arith) no_digit))) (omega arith)

payload_get-cmd_payload_example :
    let r =
      cmd_payload table_config calm
        (codes "payload" ∷ codes "custom" ∷ codes "hubble" ∷ [])
        started in
    (r.0 ≡ pos 0)
    × ((payload_get table_config calm r.1).0 ≡ (13, 0 ∷ codes "hubble" ++ replicate 6 0))
payload_get-cmd_payload_example =
    payload_get-cmd_payload table_config calm (codes "payload") (codes "hubble") 12 6 started
      table_config-IsConfig refl refl refl (omega arith) (omega arith)

-- a device with its time and its key, and five passes of which the first has begun
abbrev pass : ℕ → Pass
pass t = record { timestamp = t; duration = 60 }

abbrev ready : AppWorld
ready = record {
  state = record fresh {
    sat = record fresh_sat {
      passes = pass 10 ∷ pass 20 ∷ pass 30 ∷ pass 40 ∷ pass 50 ∷ pass 60 ∷ replicate 294 no_pass;
      idx = 1;
      count = 6;
    };
    hubble_key = replicate 16 7;
    utc_time = 5;
  };
  trace = [];
}

ready-IsTable : IsTable ready.state.sat
ready-IsTable = record { array = refl; idx_in = omega arith; count_in = omega arith }

cmd_status_shows_upcoming_example :
    let after = (cmd_status table_config calm ready).1 in
    (shown after.trace ≡ 20 ∷ 30 ∷ 40 ∷ 50 ∷ []) × (after.state ≡ ready.state)
unfolding crypto_key_is_set Queue.upcoming
cmd_status_shows_upcoming_example =
    cmd_status_shows_upcoming table_config calm ready refl ready-IsTable
