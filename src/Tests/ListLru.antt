-- ===== src/Tests/ListLru.antt =====
-- A cache by a list, newest entry first, that meets the laws of `Lru`.
use authzcache.Base.{
  ℕ, zero, suc, ◌≡◌, refl, false, List, [], ◌∷◌, Option, none, some, arith, Text, text_eq, ◌==◌,
  eq_iff, eq_refl, leb, length, map, contains, if◌then◌else◌,
}
use authzcache.Base.Int.{ℤ, pos, negsuc}
use authzcache.Base.Map.{Map, lookup, delete, lookup-delete}
use authzcache.Lru.{Lru, LruLaws}

pub record Entries (V : Type 0) : Type 0 where
  pub cap : ℕ
  pub items : Map Text V

module _ {V : Type 0} where
  -- the key of the oldest entry
  unfoldable pub oldest : Map Text V → List Text
  oldest [] = []
  oldest ((k, v) ∷ []) = k ∷ []
  oldest ((k, v) ∷ e ∷ m) = oldest (e ∷ m)

  unfoldable pub delete_all : List Text → Map Text V → Map Text V
  delete_all [] m = m
  delete_all (k ∷ ks) m = delete_all ks (delete k m)

  lookup-delete_all :
      (ks : List Text) (j : Text) (m : Map Text V)
      → lookup j (delete_all ks m) ≡ (if contains j ks then none else lookup j m)
  unfolding delete_all
  lookup-delete_all [] j m = refl
  lookup-delete_all (k ∷ ks) j m =
      ground (arith, lookup-delete_all ks j (delete k m), lookup-delete k j m)

  -- what an `Add` pushes out
  unfoldable pub evicted : ℕ → Map Text V → List Text
  unfolding oldest
  evicted cap m = if leb cap (length m) then oldest m else []

  unfoldable pub touch : Text → Option V → Map Text V → Map Text V
  touch k none m = m
  touch k (some v) m = (k, v) ∷ delete k m

  pub lookup-touch : (k j : Text) (m : Map Text V) → lookup j (touch k (lookup k m) m) ≡ lookup j m
  unfolding lookup touch
  lookup-touch k j m = ground (arith, lookup-delete k j m, eq_iff k j)

unfoldable pub new_list : {V : Type 0} → ℤ → Option (Entries V)
new_list (pos zero) = none
new_list (pos (suc n)) = some (record { cap = suc n; items = [] })
new_list (negsuc n) = none

module _ {V : Type 0} where
  pub new_list_empty :
      (n : ℤ) (s : Entries V) (k : Text) → new_list n ≡ some s → lookup k s.items ≡ none
  unfolding new_list lookup
  new_list_empty (pos zero) s k e = absurd (ground arith)
  new_list_empty (pos (suc n)) s k e = ground arith
  new_list_empty (negsuc n) s k e = absurd (ground arith)

  pub empty_of_length : (m : Map Text V) (k : Text) → length m ≡ 0 → lookup k m ≡ none
  unfolding lookup
  empty_of_length [] k e = refl
  empty_of_length (x ∷ m) k e = absurd (omega arith)

abbrev pub list_lru : (V : Type 0) → Lru V
list_lru V = record {
  State = Entries V;
  new = new_list;
  get = λ s k. (lookup k s.items, record s { items = touch k (lookup k s.items) s.items });
  add = λ s k v.
      let rest = delete k s.items in
      let out = evicted s.cap rest in (record s { items = (k, v) ∷ delete_all out rest }, out);
  remove = λ s k. record s { items = delete k s.items };
  purge = λ s. (record s { items = [] }, map (λ e. e.0) s.items);
  len = λ s. length s.items;
}

module _ {V : Type 0} where
  pub add_other :
      (s : Entries V) (k j : Text) (v : V)
      → (k == j) ≡ false
      → lookup j ((k, v) ∷ delete_all (evicted s.cap (delete k s.items)) (delete k s.items))
        ≡ (if contains j (evicted s.cap (delete k s.items)) then none else lookup j s.items)
  unfolding lookup
  add_other s k j v h = ground (
    arith,
    lookup-delete_all (evicted s.cap (delete k s.items)) j (delete k s.items),
    lookup-delete k j s.items,
  )

  pub add_self : (m : Map Text V) (k : Text) (v : V) → lookup k ((k, v) ∷ m) ≡ some v
  unfolding lookup
  add_self m k v = ground (arith, eq_refl k)

  pub purge_empty : (k : Text) → lookup {V = V} k [] ≡ none
  unfolding lookup
  purge_empty k = refl

abbrev pub list_lru_laws : (V : Type 0) → LruLaws (list_lru V)
list_lru_laws V = record {
  peek = λ s k. lookup k s.items;
  new_peek = new_list_empty;
  get_peek = λ s k. refl;
  peek_get = λ s k j. lookup-touch k j s.items;
  peek_add_self =
      λ s k v. add_self (delete_all (evicted s.cap (delete k s.items)) (delete k s.items)) k v;
  peek_add_other = add_other;
  peek_remove = λ s k j. lookup-delete k j s.items;
  peek_purge = λ s k. purge_empty k;
  len_zero = λ s k e. empty_of_length s.items k e;
}
