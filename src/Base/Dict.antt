-- ===== src/Base/Dict.antt =====
-- Python's `dict`, keyed by identifiers, in insertion order. Its representation is shut: clients
-- have the laws below.
use mathlib.Core.Option
use diagops.Base.Tests.{◌==◌, if◌then◌else◌}
use diagops.Base.Lists.{any}
use Prim.Native.Nat.{ℕ}
use mathlib.Core.Path.{◌≡◌, refl, ap, subst}
use mathlib.Core.Logic.{◌⊎◌, inl, inr}
use mathlib.Core.Bool.{Bool, true, false}
use mathlib.Core.Option.{Option, none, some}
use mathlib.Core.List.{List, [], ◌∷◌, map}
use native.Mathlib.Omega.{arith}

pub record Dict {ℓ} (V : Type ℓ) : Type ℓ where
  entries : List (ℕ × V)

module _ {ℓ} {V : Type ℓ} where
  lookup : ℕ → List (ℕ × V) → Option V
  lookup k [] = none
  lookup k ((j, v) ∷ l) = if j == k then some v else lookup k l

  -- An existing key keeps its place, a new one goes last.
  insert : ℕ → V → List (ℕ × V) → List (ℕ × V)
  insert k v [] = (k, v) ∷ []
  insert k v ((j, w) ∷ l) = let rest = insert k v l in if j == k then (j, v) ∷ l else (j, w) ∷ rest

  without : ℕ → List (ℕ × V) → List (ℕ × V)
  without k [] = []
  without k ((j, v) ∷ l) = let rest = without k l in if j == k then rest else (j, v) ∷ rest

  entry_values : List (ℕ × V) → List V
  entry_values = map (λ e. e.1)

  unfoldable pub empty : Dict V
  empty = record { entries = [] }

  -- d.get(k)
  unfoldable pub get : Dict V → ℕ → Option V
  unfolding lookup
  get d k = lookup k d.entries

  -- d[k] = v
  unfoldable pub put : Dict V → ℕ → V → Dict V
  unfolding insert
  put d k v = record { entries = insert k v d.entries }

  -- d.pop(k, None)
  unfoldable pub pop : Dict V → ℕ → Dict V
  unfolding without
  pop d k = record { entries = without k d.entries }

  -- d.values()
  unfoldable pub values : Dict V → List V
  unfolding entry_values
  values d = entry_values d.entries

  entry_keys : List (ℕ × V) → List ℕ
  entry_keys = map (λ e. e.0)

  -- for k in d
  unfoldable pub keys : Dict V → List ℕ
  unfolding entry_keys
  keys d = entry_keys d.entries

  take_at : (V → Bool) → ℕ → Option V → Option (ℕ × V) → Option (ℕ × V)
  take_at p k none rest = rest
  take_at p k (some v) rest = if p v then some (k, v) else rest

  find_at : (V → Bool) → Dict V → List ℕ → Option (ℕ × V)
  unfolding get take_at
  find_at p d [] = none
  find_at p d (k ∷ ks) = let rest = find_at p d ks in take_at p k (get d k) rest

  -- next((d[k] for k in d if p(d[k])), None), with its key
  unfoldable pub find : (V → Bool) → Dict V → Option (ℕ × V)
  unfolding find_at keys
  find p d = find_at p d (keys d)

  map_entries : (V → V) → List (ℕ × V) → List (ℕ × V)
  map_entries f = map (λ e. (e.0, f e.1))

  -- for v in d.values(): the objects are changed in place
  unfoldable pub update_values : (V → V) → Dict V → Dict V
  unfolding map_entries
  update_values f d = record { entries = map_entries f d.entries }

  filter_entries : (V → Bool) → List (ℕ × V) → List (ℕ × V)
  filter_entries p [] = []
  filter_entries p ((k, v) ∷ l) =
      let rest = filter_entries p l in if p v then (k, v) ∷ rest else rest

  -- {k: v for k, v in d.items() if p(v)}
  unfoldable pub filter_values : (V → Bool) → Dict V → Dict V
  unfolding filter_entries
  filter_values p d = record { entries = filter_entries p d.entries }

  lookup-insert :
      (k j : ℕ) (v : V) (l : List (ℕ × V))
      → lookup j (insert k v l) ≡ (if k == j then some v else lookup j l)
  unfolding lookup insert
  lookup-insert k j v [] = refl
  lookup-insert k j v ((i, w) ∷ l) = ground (arith, lookup-insert k j v l)

  lookup-without :
      (k j : ℕ) (l : List (ℕ × V)) → lookup j (without k l) ≡ (if k == j then none else lookup j l)
  unfolding lookup without
  lookup-without k j [] = ground arith
  lookup-without k j ((i, w) ∷ l) = ground (arith, lookup-without k j l)

  lookup-map_entries :
      (f : V → V) (k : ℕ) (l : List (ℕ × V))
      → lookup k (map_entries f l) ≡ Option.map f (lookup k l)
  unfolding lookup map_entries
  lookup-map_entries f k [] = refl
  lookup-map_entries f k ((i, w) ∷ l) = ground (arith, lookup-map_entries f k l)

  insert-insert_back :
      (k : ℕ) (v w : V) (l : List (ℕ × V)) → lookup k l ≡ some v → insert k v (insert k w l) ≡ l
  unfolding lookup insert
  insert-insert_back k v w [] h = cc
  insert-insert_back k v w ((i, u) ∷ l) h = ground (arith, insert-insert_back k v w l)

  insert-same : (k : ℕ) (v : V) (l : List (ℕ × V)) → lookup k l ≡ some v → insert k v l ≡ l
  unfolding lookup insert
  insert-same k v [] h = cc
  insert-same k v ((i, u) ∷ l) h = ground (arith, insert-same k v l)

  any-lookup :
      (p : V → Bool) (k : ℕ) (v : V) (l : List (ℕ × V))
      → any p (entry_values l) ≡ false
      → lookup k l ≡ some v
      → p v ≡ false
  unfolding any lookup entry_values
  any-lookup p k v [] none_of h = cc
  any-lookup p k v ((i, w) ∷ l) none_of h = ground (arith, any-lookup p k v l)

  pub get-empty : (k : ℕ) → get empty k ≡ none
  unfolding get empty
  get-empty k = refl

  pub get-put :
      (d : Dict V) (k j : ℕ) (v : V) → get (put d k v) j ≡ (if k == j then some v else get d j)
  unfolding get put
  get-put d k j v = lookup-insert k j v d.entries

  pub get-pop : (d : Dict V) (k j : ℕ) → get (pop d k) j ≡ (if k == j then none else get d j)
  unfolding get pop
  get-pop d k j = lookup-without k j d.entries

  pub get-update_values :
      (f : V → V) (d : Dict V) (k : ℕ) → get (update_values f d) k ≡ Option.map f (get d k)
  unfolding get update_values
  get-update_values f d k = lookup-map_entries f k d.entries

  -- Writing back what was there restores the dictionary itself, its order included.
  pub put-put_back : (d : Dict V) (k : ℕ) (v w : V) → get d k ≡ some v → put (put d k w) k v ≡ d
  unfolding get put
  put-put_back d k v w h = ap (λ l. record { entries = l }) (insert-insert_back k v w d.entries h)

  lookup-keys :
      (k : ℕ) (v : V) (l : List (ℕ × V))
      → lookup k l ≡ some v
      → any (λ j. j == k) (entry_keys l) ≡ true
  unfolding lookup entry_keys any
  lookup-keys k v [] h = cc
  lookup-keys k v ((j, w) ∷ l) h = ground (arith, lookup-keys k v l)

  -- What stands at a key, its key is listed.
  pub get-keys : (d : Dict V) (k : ℕ) (v : V) → get d k ≡ some v → any (λ j. j == k) (keys d) ≡ true
  unfolding get keys
  get-keys d k v h = lookup-keys k v d.entries h

  take_at-get :
      (p : V → Bool) (j : ℕ) (o : Option V) (rest : Option (ℕ × V)) {k : ℕ} {v : V}
      → take_at p j o rest ≡ some (k, v)
      → ((j ≡ k) × (o ≡ some v) × (p v ≡ true)) ⊎ (rest ≡ some (k, v))
  unfolding take_at
  take_at-get p j none rest h = inr h
  take_at-get p j (some w) rest h = ground arith

  find_at-get :
      (p : V → Bool) (d : Dict V) (ks : List ℕ) {k : ℕ} {v : V}
      → find_at p d ks ≡ some (k, v)
      → (get d k ≡ some v) × (p v ≡ true)
  unfolding find_at
  find_at-get p d [] h = cc
  find_at-get p d (j ∷ ks) {v = v} h = elim (take_at-get p j (get d j) (find_at p d ks) h) [
    | inl (here, found, holds) ↦ (subst (λ i. get d i ≡ some v) here found, holds)
    | inr later ↦ find_at-get p d ks later
  ]

  -- What is found stands at its key.
  pub find-get :
      (p : V → Bool) (d : Dict V) {k : ℕ} {v : V}
      → find p d ≡ some (k, v)
      → (get d k ≡ some v) × (p v ≡ true)
  unfolding find
  find-get p d h = find_at-get p d (keys d) h

  pub put-same : (d : Dict V) (k : ℕ) (v : V) → get d k ≡ some v → put d k v ≡ d
  unfolding get put
  put-same d k v h = ap (λ l. record { entries = l }) (insert-same k v d.entries h)

  -- What no value satisfies, the value at a key does not.
  pub any-values-get :
      (p : V → Bool) (d : Dict V) (k : ℕ) (v : V)
      → any p (values d) ≡ false
      → get d k ≡ some v
      → p v ≡ false
  unfolding get values
  any-values-get p d k v = any-lookup p k v d.entries
