-- ===== src/Base/Lists.antt =====
-- Lists measured by native numbers, and the loops that the code writes as comprehensions.
use Prim.Native.Nat.{ℕ, zero, suc, ◌+◌}
use mathlib.Core.Path.{◌≡◌, refl}
use mathlib.Core.Bool.{Bool, true, false, not, ◌||◌, ◌&&◌}
use mathlib.Core.List.{List, [], ◌∷◌, ◌++◌}
use mathlib.Core.Option.{Option, none, some}
use native.Mathlib.Omega.{arith}
use diagops.Base.Tests.{◌==◌, if◌then◌else◌}

module _ {ℓ} {A : Type ℓ} where
  abbrev pub length : List A → ℕ
  length [] = 0
  length (x ∷ xs) = suc (length xs)

  abbrev pub take : ℕ → List A → List A
  take zero xs = []
  take (suc n) [] = []
  take (suc n) (x ∷ xs) = x ∷ take n xs

  -- `any(p(x) for x in xs)`
  unfoldable pub any : (A → Bool) → List A → Bool
  any p [] = false
  any p (x ∷ xs) = p x || any p xs

  -- `[x for x in xs if p(x)]`
  unfoldable pub keep : (A → Bool) → List A → List A
  keep p [] = []
  keep p (x ∷ xs) = let rest = keep p xs in if p x then x ∷ rest else rest

  -- `next((x for x in xs if p(x)), None)`
  unfoldable pub first : (A → Bool) → List A → Option A
  first p [] = none
  first p (x ∷ xs) = if p x then some x else first p xs

  -- `{key(x): x for x in xs}` read at a key: the last match
  unfoldable pub latest : (A → Bool) → List A → Option A
  latest p [] = none
  latest p (x ∷ xs) = elim (latest p xs) [ some y ↦ some y | none ↦ if p x then some x else none ]

  pub length-append : (xs ys : List A) → length (xs ++ ys) ≡ length xs + length ys
  length-append [] ys = omega arith
  length-append (x ∷ xs) ys = omega (arith, length-append xs ys)

-- `a in xs`
abbrev pub contains : List ℕ → ℕ → Bool
contains xs a = any (λ x. x == a) xs

pub contains-append :
    (xs : List ℕ) (x y : ℕ) → contains (xs ++ (x ∷ [])) y ≡ (contains xs y || x == y)
unfolding any
contains-append [] x y = ground arith
contains-append (z ∷ xs) x y = ground (arith, contains-append xs x y)

-- All `x` are taken out.
pub contains-keep :
    (xs : List ℕ) (x y : ℕ)
    → contains (keep (λ z. not (z == x)) xs) y ≡ (contains xs y && not (x == y))
unfolding any keep
contains-keep [] x y = refl
contains-keep (z ∷ xs) x y = ground (arith, contains-keep xs x y)

-- What holds of no element does not hold of one.
pub any-contains :
    (p : ℕ → Bool) (xs : List ℕ) (x : ℕ) → any p xs ≡ false → contains xs x ≡ true → p x ≡ false
unfolding any
any-contains p [] x h k = cc
any-contains p (y ∷ xs) x h k = ground (arith, any-contains p xs x)
