-- ===== src/Device/Serving.antt =====
-- A round of main (app/src/main.c) with the other threads of the application core running into it: the
-- pass that it has found is served, whatever events come in while its calls block.
use hubble_reference_thingy.Common.{ℕ, zero, suc, ◌≡◌, refl, ◌∙◌, List, get_or-set_ne, arith}
use hubble_reference_thingy.Config.{Config}
use hubble_reference_thingy.App.{App, AppEnv, Call, Pass, Sat}
use hubble_reference_thingy.Sat.Passes.{no_pass, sat_pass_add}
use hubble_reference_thingy.Sat.Payload.{sat_payload_set}
use hubble_reference_thingy.Sat.Window.{IsClock, OthersKeepInterval}
use hubble_reference_thingy.Ble.Write.{device_location_set}
use hubble_reference_thingy.Main.Transmits.{IsServing, IsPrompt}
use hubble_reference_thingy.Main.Serves.{OthersKeepPass, Succeeds}
use hubble_reference_thingy.Main.Waits.{WaitsReturn}
use hubble_reference_thingy.Device.Interleaved.{Schedule, interleaved}
use hubble_reference_thingy.Device.Kept.{IsKept}
use hubble_reference_thingy.Device.Steady.{AreSteady, run-keeps}

-- A registration goes behind the current pass.
IsServing-IsKept : (c : Config) (p : Pass) (q : ℕ) → IsKept c (IsServing p q)
unfolding sat_pass_add device_location_set sat_payload_set
IsServing-IsKept c p q = record {
  adds = λ t d s h. ground (
    arith,
    get_or-set_ne s.passes {i = s.count} {j = s.idx} (record { timestamp = t; duration = d })
        no_pass,
  );
  places = λ lat lon s h. ground arith;
  loads = λ type bytes len s h. ground arith;
}

pub interval-IsKept : (c : Config) (q : ℕ) → IsKept c (λ s. s.retransmission_s ≡ q)
unfolding sat_pass_add device_location_set sat_payload_set
interval-IsKept c q = record {
  adds = λ t d s h. ground arith;
  places = λ lat lon s h. ground arith;
  loads = λ type bytes len s h. ground arith;
}

module _ (c : Config) (env : AppEnv) (schedule : Schedule)
    (steady : (tr : List Call) (k : Call) → AreSteady (schedule tr k)) where
  pub interleaved-keeps :
      (P : Sat → Type 0) (depth : ℕ)
      → IsKept c P
      → ((tr : List Call) (k : Call) (a : App) → P a.sat → P (env.others tr k a).sat)
      → (tr : List Call) (k : Call) (a : App) → P a.sat
      → P ((interleaved c env schedule depth).others tr k a).sat
  interleaved-keeps P zero kept others tr k a h = others tr k a h
  interleaved-keeps P (suc depth) kept others tr k a h =
      run-keeps c P kept (interleaved c env schedule depth) (interleaved-keeps P depth kept others)
        (schedule tr k) _ (steady tr k) h

  pub interleaved-OthersKeepPass :
      (depth : ℕ) → OthersKeepPass env → OthersKeepPass (interleaved c env schedule depth)
  interleaved-OthersKeepPass depth others = record {
    keep = λ tr k a p q h.
        interleaved-keeps (IsServing p q) depth (IsServing-IsKept c p q)
          (λ tr k a. others.keep tr k a p q) tr k a h;
  }

  pub interleaved-OthersKeepInterval :
      (depth : ℕ) → OthersKeepInterval env → OthersKeepInterval (interleaved c env schedule depth)
  interleaved-OthersKeepInterval depth others = record {
    keep = λ tr k a.
        interleaved-keeps (λ s. s.retransmission_s ≡ a.sat.retransmission_s) depth
          (interval-IsKept c a.sat.retransmission_s) (λ tr k b e. others.keep tr k b ∙ e) tr k a
          refl;
  }

  pub interleaved-IsClock : (depth : ℕ) → IsClock env → IsClock (interleaved c env schedule depth)
  interleaved-IsClock zero clock = clock
  interleaved-IsClock (suc depth) clock = record { mono = clock.mono; sleeps = clock.sleeps }

  pub interleaved-IsPrompt :
      (depth : ℕ) → IsPrompt env → IsPrompt (interleaved c env schedule depth)
  interleaved-IsPrompt zero on_time = on_time
  interleaved-IsPrompt (suc depth) on_time = record { prompt = on_time.prompt }

  pub interleaved-Succeeds :
      (depth : ℕ) → Succeeds env → Succeeds (interleaved c env schedule depth)
  interleaved-Succeeds zero ok = ok
  interleaved-Succeeds (suc depth) ok = record {
    opens = ok.opens;
    registers = ok.registers;
    posts = ok.posts;
    answers = ok.answers;
    packets = ok.packets;
  }

  pub interleaved-WaitsReturn :
      (depth : ℕ) → WaitsReturn env → WaitsReturn (interleaved c env schedule depth)
  interleaved-WaitsReturn zero waits = waits
  interleaved-WaitsReturn (suc depth) waits = record {
    wakes = waits.wakes;
    locked = waits.locked;
    bound = waits.bound;
  }
