-- ===== src/Base/Tests.antt =====
-- Boolean tests on numbers, optional numbers and enumerations, and the conditional.
use Prim.Native.Nat.{ℕ, compare, Ordering}
use mathlib.Core.Path.{◌≡◌, refl}
use mathlib.Core.Logic.{◌↔◌, ◌⊎◌, inl, inr}
use mathlib.Core.Bool.{Bool, true, false}
use mathlib.Core.Option.{Option, none, some}
use native.Mathlib.Omega.{arith}

abbrev pub ltb : ℕ → ℕ → Bool
ltb a b = elim (compare a b) [ Ordering.lt ↦ true | _ ↦ false ]

abbrev pub leb : ℕ → ℕ → Bool
leb a b = elim (compare a b) [ Ordering.gt ↦ false | _ ↦ true ]

infix 50 ◌==◌
abbrev pub ◌==◌ : ℕ → ℕ → Bool
a == b = elim (compare a b) [ Ordering.eq ↦ true | _ ↦ false ]

infix 1 if◌then◌else◌
abbrev pub if◌then◌else◌ {ℓ} : {A : Type ℓ} → Bool → A → A → A
if true then x else y = x
if false then x else y = y

-- `==` on an enumeration, by its decision.
abbrev pub same {ℓ} : {A : Type ℓ} → Discrete A → A → A → Bool
same dec a b = elim (dec a b) [ yes _ ↦ true | no _ ↦ false ]

-- `==` on optional identifiers.
abbrev pub opt_eq : Option ℕ → Option ℕ → Bool
opt_eq none none = true
opt_eq none (some b) = false
opt_eq (some a) none = false
opt_eq (some a) (some b) = a == b

-- Identifiers are texts, of which the code asks only whether two are equal and whether one is
-- empty. Here an identifier is a number, and 0 is the empty text.
abbrev pub id_or_empty : Option ℕ → ℕ
id_or_empty none = 0
id_or_empty (some a) = a

-- `a or b`
abbrev pub or_else : Option ℕ → ℕ → ℕ
or_else none b = b
or_else (some a) b = if a == 0 then b else a

abbrev pub is_some {ℓ} : {A : Type ℓ} → Option A → Bool
is_some none = false
is_some (some a) = true

pub opt_eq_iff : (a b : Option ℕ) → (opt_eq a b ≡ true) ↔ (a ≡ b)
opt_eq_iff a b = ground arith

pub Bool-cases : (b : Bool) → (b ≡ true) ⊎ (b ≡ false)
Bool-cases true = inl refl
Bool-cases false = inr refl

pub Option-cases {ℓ} : {A : Type ℓ} (o : Option A) → (o ≡ none) ⊎ ((a : A) × (o ≡ some a))
Option-cases none = inl refl
Option-cases (some a) = inr (a, refl)

-- What holds of both branches, each under its test, holds of the whole.
pub branch-keeps {ℓ κ} :
    {A : Type ℓ} (P : A → Type κ) (b : Bool) (x y : A)
    → (b ≡ true → P x)
    → (b ≡ false → P y)
    → P (if b then x else y)
branch-keeps P true x y p q = p refl
branch-keeps P false x y p q = q refl
