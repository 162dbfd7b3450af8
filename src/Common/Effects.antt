-- ===== src/Common/Effects.antt =====
-- State passing with a trace of the calls that leave the program.
-- `S` holds the C globals, `C` lists the foreign calls with their arguments. What a foreign call
-- answers is a parameter: a function of the calls made before it, so that any behaviour of the
-- kernel, the drivers and the SDK is an instance.
use Prim.Native.Nat.{ℕ}
use mathlib.Core.List.{List, ◌∷◌}
use hubble_reference_thingy.Common.Int.{ℤ}

pub record World (S C : Type 0) : Type 0 where
  pub state : S
  -- the latest call first
  pub trace : List C

pub record Env (S C : Type 0) : Type 0 where
  -- the `int` that a call returns
  pub ret : List C → C → ℤ
  -- the unsigned number that a call returns, or writes through an out-pointer
  pub val : List C → C → ℕ
  -- the bytes that a call writes through an out-pointer
  pub out : List C → C → List ℕ
  -- what the other threads do to the globals while a call blocks
  pub others : List C → C → S → S

abbrev pub M : Type 0 → Type 0 → Type 0 → Type 0
M S C A = World S C → A × World S C

module _ {S C : Type 0} where
  abbrev pub pure : {A : Type 0} → A → M S C A
  pure a w = (a, w)

  infixl 5 ◌>>=◌ ◌>>◌
  abbrev pub ◌>>=◌ : {A B : Type 0} → M S C A → (A → M S C B) → M S C B
  ◌>>=◌ m f w = f (m w).0 (m w).1

  abbrev pub ◌>>◌ : {A B : Type 0} → M S C A → M S C B → M S C B
  ◌>>◌ m k w = k (m w).1

  abbrev pub gets : {A : Type 0} → (S → A) → M S C A
  gets f w = (f w.state, w)

  abbrev pub modify : (S → S) → M S C (Unit {0})
  modify f w = (tt, record w { state = f w.state })

  -- a call whose result is not used
  abbrev pub emit : C → M S C (Unit {0})
  emit c w = (tt, record w { trace = c ∷ w.trace })

module _ {S C : Type 0} (env : Env S C) where
  abbrev pub call : C → M S C ℤ
  call c w = (env.ret w.trace c, record w { trace = c ∷ w.trace })

  abbrev pub call_val : C → M S C ℕ
  call_val c w = (env.val w.trace c, record w { trace = c ∷ w.trace })

  -- the result, and the bytes written
  abbrev pub call_out : C → M S C (ℤ × List ℕ)
  call_out c w = ((env.ret w.trace c, env.out w.trace c), record w { trace = c ∷ w.trace })

  -- the result, the number and the bytes
  abbrev pub call_all : C → M S C (ℤ × ℕ × List ℕ)
  call_all c w =
      ((env.ret w.trace c, env.val w.trace c, env.out w.trace c), record w { trace = c ∷ w.trace })

  -- a call that lets the other threads run before it returns
  abbrev pub block : C → M S C ℤ
  block c w =
      (env.ret w.trace c, record { state = env.others w.trace c w.state; trace = c ∷ w.trace })
