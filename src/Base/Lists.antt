-- ===== src/Base/Lists.antt =====
-- List operations over the native numbers.
use Prim.Native.Nat.{ℕ, zero, suc, ◌<◌}
use mathlib.Core.Path.{◌≡◌, refl, subst, ap}
use mathlib.Core.Logic.{◌⊎◌, ◌≢◌}
use mathlib.Core.Option.{Option, none, some}
use mathlib.Core.List.{List, [], ◌∷◌, ◌++◌}
use native.Mathlib.Omega.{arith}
use chef_infra.Base.Tests.{nat_eq, if◌then◌else◌}

module _ {ℓ} {A : Type ℓ} where
  abbrev pub length : List A → ℕ
  length [] = 0
  length (x ∷ xs) = suc (length xs)

  abbrev pub get_elem? : List A → ℕ → Option A
  get_elem? [] i = none
  get_elem? (x ∷ xs) zero = some x
  get_elem? (x ∷ xs) (suc i) = get_elem? xs i

  -- A write out of bounds changes nothing.
  abbrev pub set : List A → ℕ → A → List A
  set [] i v = []
  set (x ∷ xs) zero v = v ∷ xs
  set (x ∷ xs) (suc i) v = x ∷ set xs i v

module _ {A : Type 0} where
  abbrev pub All : (A → Type 0) → List A → Type 0
  All P [] = Unit
  All P (x ∷ xs) = P x × All P xs

  module _ (P : A → Type 0) where
    pub All-get_elem? : (xs : List A) (i : ℕ) (x : A) → All P xs → get_elem? xs i ≡ some x → P x
    All-get_elem? [] i x h e = absurd (cc e)
    All-get_elem? (y ∷ ys) zero x h e = subst P (cc e) h.0
    All-get_elem? (y ∷ ys) (suc i) x h e = All-get_elem? ys i x h.1 e

    pub All-set : (xs : List A) (i : ℕ) (x : A) → All P xs → P x → All P (set xs i x)
    All-set [] i x h p = tt
    All-set (y ∷ ys) zero x h p = (p, h.1)
    All-set (y ∷ ys) (suc i) x h p = (h.0, All-set ys i x h.1 p)

    pub All-append_one : (xs : List A) (x : A) → All P xs → P x → All P (xs ++ (x ∷ []))
    All-append_one [] x h p = (p, tt)
    All-append_one (y ∷ ys) x h p = (h.0, All-append_one ys x h.1 p)

  -- A second write at a place leaves nothing of the first.
  pub set-set : (xs : List A) (i : ℕ) (x y : A) → set (set xs i x) i y ≡ set xs i y
  set-set [] i x y = refl
  set-set (z ∷ zs) zero x y = refl
  set-set (z ∷ zs) (suc i) x y = ap (λ rest. z ∷ rest) (set-set zs i x y)

  pub get_elem?-set :
      (xs : List A) (i j : ℕ) (x y : A)
      → get_elem? xs i ≡ some y
      → get_elem? (set xs i x) j ≡ (if nat_eq i j then some x else get_elem? xs j)
  get_elem?-set [] i j x y e = absurd (cc e)
  get_elem?-set (z ∷ zs) zero zero x y e = refl
  get_elem?-set (z ∷ zs) zero (suc j) x y e = ground arith
  get_elem?-set (z ∷ zs) (suc i) zero x y e = ground arith
  get_elem?-set (z ∷ zs) (suc i) (suc j) x y e = ground (arith, get_elem?-set zs i j x y e)

  pub get_elem?-append_one :
      (xs : List A) (x : A) (j : ℕ)
      → get_elem? (xs ++ (x ∷ [])) j ≡ (if nat_eq j (length xs) then some x else get_elem? xs j)
  get_elem?-append_one [] x zero = refl
  get_elem?-append_one [] x (suc j) = ground arith
  get_elem?-append_one (y ∷ ys) x zero = ground arith
  get_elem?-append_one (y ∷ ys) x (suc j) = ground (arith, get_elem?-append_one ys x j)

  pub get_elem?-lt_length : (xs : List A) (i : ℕ) (x : A) → get_elem? xs i ≡ some x → i < length xs
  get_elem?-lt_length [] i x e = absurd (cc e)
  get_elem?-lt_length (y ∷ ys) zero x e = omega arith
  get_elem?-lt_length (y ∷ ys) (suc i) x e = omega (arith, get_elem?-lt_length ys i x e)

  -- To split on what a written list holds at a place.
  pub get_elem?-set_cases :
      (xs : List A) (i j : ℕ) (x y z : A)
      → get_elem? xs i ≡ some y
      → get_elem? (set xs i x) j ≡ some z
      → ((i ≡ j) × (x ≡ z)) ⊎ ((i ≢ j) × (get_elem? xs j ≡ some z))
  get_elem?-set_cases xs i j x y z at_i at_j = ground (arith, get_elem?-set xs i j x y at_i)

  pub get_elem?-append_one_cases :
      (xs : List A) (x : A) (j : ℕ) (z : A)
      → get_elem? (xs ++ (x ∷ [])) j ≡ some z
      → (x ≡ z) ⊎ (get_elem? xs j ≡ some z)
  get_elem?-append_one_cases xs x j z at_j = ground (arith, get_elem?-append_one xs x j)
