-- ===== src/Prelude/Outcomes.antt =====
-- How a call of a C function ends: with a value, by a memory fault, or by leaving the program; or a
-- loop of the model runs out of fuel.
use Prim.Native.Nat.{ℕ}
use mathlib.Core.Bool.{Bool, true, false}
use gtksudoku.Prelude.Tests.{if◌then◌else◌}
use mathlib.Core.Path.{◌≡◌, refl}
use mathlib.Core.Option.{Option, none, some}

-- `fault` is undefined behaviour (a read through a null or dangling pointer), `exited` is `exit`.
pub data Outcome {ℓ} (A : Type ℓ) : Type ℓ where
  done : A → Outcome A
  fault : Outcome A
  exited : ℕ → Outcome A
  stuck : Outcome A

infixl 5 ◌>>=◌
abbrev pub ◌>>=◌ {ℓ κ} : {A : Type ℓ} {B : Type κ} → Outcome A → (A → Outcome B) → Outcome B
done a >>= f = f a
fault >>= f = fault
exited n >>= f = exited n
stuck >>= f = stuck

abbrev pub or_fault {ℓ} : {A : Type ℓ} → Option A → Outcome A
or_fault none = fault
or_fault (some a) = done a

pub >>=-eq-done {ℓ κ} :
    {A : Type ℓ} {B : Type κ} (m : Outcome A) (f : A → Outcome B) {b : B}
    → (m >>= f) ≡ done b
    → (a : A) × (m ≡ done a) × (f a ≡ done b)
>>=-eq-done (done a) f h = (a, refl, h)
>>=-eq-done fault f h = cc
>>=-eq-done (exited n) f h = cc
>>=-eq-done stuck f h = cc

-- A call that returns.
abbrev pub IsDone {ℓ} : {A : Type ℓ} → Outcome A → Type 0
IsDone (done _) = Unit
IsDone fault = ⊥
IsDone (exited _) = ⊥
IsDone stuck = ⊥

pub IsDone->>= {ℓ κ} :
    {A : Type ℓ} {B : Type κ} (m : Outcome A) (f : A → Outcome B)
    → IsDone m
    → ((a : A) → IsDone (f a))
    → IsDone (m >>= f)
IsDone->>= (done a) f h k = k a
IsDone->>= fault f h k = h
IsDone->>= (exited n) f h k = absurd h
IsDone->>= stuck f h k = absurd h

pub IsDone-if {ℓ} :
    {A : Type ℓ} (b : Bool) (m n : Outcome A) → IsDone m → IsDone n → IsDone (if b then m else n)
IsDone-if true m n h k = h
IsDone-if false m n h k = k

pub IsDone-returns {ℓ} : {A : Type ℓ} (m : Outcome A) → IsDone m → (a : A) × (m ≡ done a)
IsDone-returns (done a) h = (a, refl)
IsDone-returns fault h = absurd h
IsDone-returns (exited n) h = absurd h
IsDone-returns stuck h = absurd h
