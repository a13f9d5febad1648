-- ===== src/Base/Map.antt =====
-- A Go map as an association list: `range` walks the entries in the order of the list. The laws are
-- equations with a test, so that they serve as rewriting rules at every key.
use mathlib.Core.Path.{◌≡◌, refl}
use mathlib.Core.Bool.{true}
use mathlib.Core.List.{List, [], ◌∷◌}
use mathlib.Core.Option.{Option, none, some}
use native.Mathlib.Omega.{arith}
use authzcache.Base.Tests.{Eq, ◌==◌, eq_iff, eq_refl, if◌then◌else◌}
use authzcache.Base.Lists.{is_empty}

abbrev pub Map {ℓ κ} : Type ℓ → Type κ → Type (ℓ ⊔ κ)
Map K V = List (K × V)

module _ {ℓ κ} {K : Type ℓ} {V : Type κ} ⦃e : Eq K⦄ where
  unfoldable pub lookup : K → Map K V → Option V
  lookup name [] = none
  lookup name ((found, value) ∷ rest) = if found == name then some value else lookup name rest

  -- `m[k] = v`
  unfoldable pub insert : K → V → Map K V → Map K V
  insert name value [] = (name, value) ∷ []
  insert name value ((found, old) ∷ rest) =
      if found == name then (name, value) ∷ rest else (found, old) ∷ insert name value rest

  -- `delete(m, k)`
  unfoldable pub delete : K → Map K V → Map K V
  delete k [] = []
  delete k ((j, w) ∷ m) = let rest = delete k m in if j == k then rest else (j, w) ∷ rest

  pub lookup-insert :
      (name other : K) (value : V) (rest : Map K V)
      → lookup other (insert name value rest)
        ≡ (if name == other then some value else lookup other rest)
  unfolding lookup insert
  lookup-insert name other value [] = refl
  lookup-insert name other value ((found, old) ∷ rest) = ground (
    arith,
    lookup-insert name other value rest,
    eq_iff name other,
    eq_iff found name,
    eq_iff found other,
  )

  pub lookup-delete :
      (k j : K) (m : Map K V) → lookup j (delete k m) ≡ (if k == j then none else lookup j m)
  unfolding lookup delete
  lookup-delete k j [] = ground arith
  lookup-delete k j ((i, w) ∷ m) =
      ground (arith, eq_iff k j, eq_iff i k, eq_iff i j, lookup-delete k j m)

  pub lookup_of_is_empty : (k : K) (m : Map K V) → is_empty m ≡ true → lookup k m ≡ none
  unfolding lookup
  lookup_of_is_empty k [] h = refl
  lookup_of_is_empty k (x ∷ m) h = ground arith

  pub lookup-insert_self :
      (name : K) (value : V) (rest : Map K V) → lookup name (insert name value rest) ≡ some value
  lookup-insert_self name value rest =
      ground (arith, eq_refl name, lookup-insert name name value rest)
