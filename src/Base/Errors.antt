-- ===== src/Base/Errors.antt =====
-- Calls that may fail, and what the code can tell about the error of a call that it does not
-- implement (the Kubernetes API, the Thunder API, the node).
use mathlib.Core.Bool.{Bool, true, false}
use mathlib.Core.List.{List}
use mathlib.Core.Option.{Option, none, some}
use mathlib.Core.Path.{◌≡◌, refl}
use mathlib.Core.Logic.{◌⊎◌, inl, inr}
use Prim.Native.Nat.{ℕ}
use thunder_device_plugin.Base.Tests.{if◌then◌else◌}

-- Go's pair of a value and an error.
pub data Outcome {ℓ κ} (E : Type ℓ) (A : Type κ) : Type (ℓ ⊔ κ) where
  ok : A → Outcome E A
  err : E → Outcome E A

pub Outcome-cases {ℓ κ} :
    {E : Type ℓ} {A : Type κ} (o : Outcome E A) → ((a : A) × (o ≡ ok a)) ⊎ ((e : E) × (o ≡ err e))
Outcome-cases (ok a) = inl (a, refl)
Outcome-cases (err e) = inr (e, refl)

-- To prove something of a branch on an outcome, prove it of both cases, with the equation kept.
module _ {ℓ κ μ ν} {E : Type ℓ} {A : Type κ} {B : Type μ} (P : B → Type ν) where
  pub Outcome-branch :
      (o : Outcome E A) (f : A → B) (g : E → B)
      → ((a : A) → o ≡ ok a → P (f a))
      → ((e : E) → o ≡ err e → P (g e))
      → P (elim o [ ok a ↦ f a | err e ↦ g e ])
  Outcome-branch (ok a) f g h k = h a refl
  Outcome-branch (err e) f g h k = k e refl

module _ {κ μ ν} {A : Type κ} {B : Type μ} (P : B → Type ν) where
  pub Option-branch :
      (o : Option A) (b : B) (f : A → B)
      → (o ≡ none → P b)
      → ((a : A) → o ≡ some a → P (f a))
      → P (elim o [ none ↦ b | some a ↦ f a ])
  Option-branch none b f h k = h refl
  Option-branch (some a) b f h k = k a refl

module _ {μ ν} {B : Type μ} (P : B → Type ν) where
  pub if-branch :
      (t : Bool) (x y : B) → (t ≡ true → P x) → (t ≡ false → P y) → P (if t then x else y)
  if-branch true x y h k = h refl
  if-branch false x y h k = k refl

-- An error of an external call, by the tests that the code makes on it (IsNotFound, IsConflict,
-- IsAlreadyExists, status 410), with its message otherwise.
pub data Fault : Type 0 where
  not_found conflict already_exists gone : Fault
  other : List ℕ → Fault

abbrev pub is_not_found : Fault → Bool
is_not_found not_found = true
is_not_found _ = false

abbrev pub is_conflict : Fault → Bool
is_conflict conflict = true
is_conflict _ = false

abbrev pub is_already_exists : Fault → Bool
is_already_exists already_exists = true
is_already_exists _ = false

-- A call on the outside world: it may fail, and returns the world after it.
abbrev pub Call : Type 0 → Type 0 → Type 0 → Type 0
Call W E A = W → Outcome E A × W
