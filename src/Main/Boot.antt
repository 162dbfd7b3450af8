-- ===== src/Main/Boot.antt =====
-- The start-up of main in app/src/main.c, up to its loop.
use hubble_reference_thingy.Common.{
  ◌≡◌, Bool, true, false, ◌&&◌, ◌==◌, Option, none, some, List, [], ◌∷◌, arith,
}
use hubble_reference_thingy.Common.Int.{ℤ, is_zero}
use hubble_reference_thingy.Config.{Config}
use hubble_reference_thingy.App.{
  AppEnv, AppWorld, Call, hubble_init, bt_enable, k_sem_take, key_sem, init_sem, forever,
}
use hubble_reference_thingy.App.Stack.{core}
use hubble_reference_thingy.Ble.Advertise.{ble_init}
use hubble_reference_thingy.Main.Key.{crypto_key_set, key_get}
use hubble_reference_thingy.Main.Network.{ble_stack}
use hubble_reference_thingy.Main.Loop.{load_key, register_satellites, boot}

-- the last two calls: both semaphores were waited for
abbrev has_waited : List Call → Bool
has_waited (k_sem_take key_sem forever ∷ k_sem_take init_sem forever ∷ tr) = true
has_waited _ = false

-- whether the SDK was never started before the time and the key were there
abbrev pub waits_first : List Call → Bool
waits_first [] = true
waits_first (hubble_init _ _ ∷ tr) = has_waited tr && waits_first tr
waits_first (_ ∷ tr) = waits_first tr

-- whether Bluetooth, for which bt_enable starts the network core, was only enabled under its mark
abbrev pub marks_first : List Call → Bool
marks_first [] = true
marks_first (bt_enable ∷ tr) = (core tr).mark == ble_stack && marks_first tr
marks_first (_ ∷ tr) = marks_first tr

-- a return of 0 would say that main has done its work
abbrev pub returns_zero : Option ℤ → Bool
returns_zero none = false
returns_zero (some err) = is_zero err

module _ (c : Config) (env : AppEnv) where
  load_key-waits_first :
      (w : AppWorld) → waits_first w.trace ≡ true → waits_first (load_key c env w).1.trace ≡ true
  unfolding load_key crypto_key_set key_get
  load_key-waits_first w h = ground arith

  boot-waits_first :
      (w : AppWorld)
      → waits_first (load_key c env w).1.trace ≡ true
      → waits_first (boot c env w).1.trace ≡ true
  unfolding boot ble_init register_satellites
  boot-waits_first w h = ground arith

  load_key-core : (w : AppWorld) → core (load_key c env w).1.trace ≡ core w.trace
  unfolding load_key crypto_key_set key_get
  load_key-core w = ground arith

  boot-core :
      (w : AppWorld)
      → core (load_key c env w).1.trace ≡ core w.trace
      → core (boot c env w).1.trace ≡ record (core w.trace) { mark = ble_stack }
  unfolding boot ble_init register_satellites
  boot-core w h = ground (arith, h)

  load_key-marks_first :
      (w : AppWorld) → marks_first (load_key c env w).1.trace ≡ marks_first w.trace
  unfolding load_key crypto_key_set key_get
  load_key-marks_first w = ground arith

  boot-marks_first :
      (w : AppWorld)
      → marks_first (load_key c env w).1.trace ≡ marks_first w.trace
      → marks_first (boot c env w).1.trace ≡ marks_first w.trace
  unfolding boot ble_init register_satellites
  boot-marks_first w h = ground (arith, h)

  boot-returns_zero : (w : AppWorld) → returns_zero (boot c env w).0 ≡ false
  unfolding boot register_satellites
  boot-returns_zero w = ground arith

  -- The start-up never starts the SDK before it has waited for the time and, after it, for the key; it
  -- enables Bluetooth only after it has set the mark for it, leaves that mark, and makes no call of
  -- nrf53_cpunet_enable itself; and where it does not reach the loop, it returns an error,
  -- never 0.
  pub boot_holds_back :
      (w : AppWorld)
      → waits_first w.trace ≡ true
      → let (result, w') = boot c env w in
        (waits_first w'.trace ≡ true)
        × (marks_first w'.trace ≡ marks_first w.trace)
        × (core w'.trace ≡ record (core w.trace) { mark = ble_stack })
        × (returns_zero result ≡ false)
  boot_holds_back w h = (
    boot-waits_first w (load_key-waits_first w h),
    boot-marks_first w (load_key-marks_first w),
    boot-core w (load_key-core w),
    boot-returns_zero w,
  )
