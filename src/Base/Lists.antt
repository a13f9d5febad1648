-- ===== src/Base/Lists.antt =====
-- Lists measured and indexed by native numbers, membership as a test, and erasing.
use Prim.Native.Nat.{ℕ, zero, suc, ◌+◌}
use mathlib.Core.Path.{◌≡◌, refl}
use mathlib.Core.Bool.{Bool, true, false, ◌||◌, ◌&&◌}
use mathlib.Core.List.{List, [], ◌∷◌, ◌++◌}
use mathlib.Core.Option.{Option, none, some}
use native.Mathlib.Omega.{arith}
use authzcache.Base.Tests.{Eq, ◌==◌, eq_iff, if◌then◌else◌}

abbrev pub or_else {ℓ} : {A : Type ℓ} → Option A → A → A
or_else none d = d
or_else (some a) d = a

abbrev pub is_some {ℓ} : {A : Type ℓ} → Option A → Bool
is_some none = false
is_some (some a) = true

module _ {ℓ} {A : Type ℓ} where
  abbrev pub length : List A → ℕ
  length [] = 0
  length (x ∷ xs) = suc (length xs)

  abbrev pub is_empty : List A → Bool
  is_empty [] = true
  is_empty (x ∷ xs) = false

  abbrev pub get_elem? : List A → ℕ → Option A
  get_elem? [] i = none
  get_elem? (x ∷ xs) zero = some x
  get_elem? (x ∷ xs) (suc i) = get_elem? xs i

  abbrev pub set : List A → ℕ → A → List A
  set [] i v = []
  set (x ∷ xs) zero v = v ∷ xs
  set (x ∷ xs) (suc i) v = x ∷ set xs i v

  abbrev pub all : (A → Bool) → List A → Bool
  all p [] = true
  all p (x ∷ xs) = p x && all p xs

  abbrev pub any : (A → Bool) → List A → Bool
  any p [] = false
  any p (x ∷ xs) = p x || any p xs

  abbrev pub All {κ} : (A → Type κ) → List A → Type κ
  All P [] = Unit
  All P (x ∷ xs) = P x × All P xs

  pub length-append : (xs ys : List A) → length (xs ++ ys) ≡ length xs + length ys
  length-append [] ys = omega arith
  length-append (x ∷ xs) ys = omega (arith, length-append xs ys)

module _ {ℓ} {A : Type ℓ} ⦃e : Eq A⦄ where
  abbrev pub contains : A → List A → Bool
  contains a [] = false
  contains a (x ∷ xs) = (x == a) || contains a xs

  -- Without the first occurrence.
  abbrev pub erase : A → List A → List A
  erase a [] = []
  erase a (x ∷ xs) = if x == a then xs else x ∷ erase a xs

  pub contains-append :
      (a : A) (xs ys : List A) → contains a (xs ++ ys) ≡ (contains a xs || contains a ys)
  contains-append a [] ys = refl
  contains-append a (x ∷ xs) ys = ground (arith, contains-append a xs ys)

  -- Erasing one value keeps the membership of all others.
  pub contains-erase_ne :
      (a b : A) (xs : List A) → (a == b) ≡ false → contains b (erase a xs) ≡ contains b xs
  contains-erase_ne a b [] h = refl
  contains-erase_ne a b (x ∷ xs) h =
      ground (arith, contains-erase_ne a b xs h, eq_iff x a, eq_iff x b, eq_iff a b)

  pub erase_absent : (a : A) (xs : List A) → contains a xs ≡ false → erase a xs ≡ xs
  erase_absent a [] h = refl
  erase_absent a (x ∷ xs) h = ground (arith, erase_absent a xs)

-- the list from index `j` on
abbrev pub after {ℓ} : {A : Type ℓ} → ℕ → List A → List A
after zero xs = xs
after (suc j) [] = []
after (suc j) (x ∷ xs) = after j xs

pub after-next {ℓ} :
    {A : Type ℓ} (j : ℕ) (xs : List A) (a : A) (rest : List A)
    → after j xs ≡ a ∷ rest
    → (get_elem? xs j ≡ some a) × (after (suc j) xs ≡ rest)
after-next zero [] a rest h = absurd (ground arith)
after-next zero (x ∷ xs) a rest h = (ground arith, ground arith)
after-next (suc j) [] a rest h = absurd (ground arith)
after-next (suc j) (x ∷ xs) a rest h = after-next j xs a rest h
