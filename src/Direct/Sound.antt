-- ===== src/Direct/Sound.antt =====
-- An index lists a key only under names that it was built for: adding and removing keep that.
use authzcache.Base.{
  ◌≡◌, subst, List, [], ◌∷◌, ◌++◌, some, inl, inr, arith, Text, text_eq, ◌==◌, eq_iff, Bool-cases,
  Option-cases, All, contains, erase, or_else,
}
use authzcache.Base.Map.{Map, lookup, insert, delete}
use authzcache.Direct.{Index, add_key, drop_key, prune_inner, prune_outer, remove_key}

-- a predicate of every entry of a map
abbrev pub AllEntries : {V : Type 0} → (Text → V → Type 0) → Map Text V → Type 0
AllEntries P [] = Unit
AllEntries P ((k, v) ∷ m) = P k v × AllEntries P m

module _ {V : Type 0} (P : Text → V → Type 0) where
  insert-All :
      (k : Text) (v : V) (m : Map Text V) → P k v → AllEntries P m → AllEntries P (insert k v m)
  unfolding insert
  insert-All k v [] p a = (p, tt)
  insert-All k v ((j, w) ∷ m) p (q, a) = elim (Bool-cases (j == k)) [
    | inl same ↦ rw same (p, a)
    | inr other ↦ rw other (q, insert-All k v m p a)
  ]

  pub delete-All : (k : Text) (m : Map Text V) → AllEntries P m → AllEntries P (delete k m)
  unfolding delete
  delete-All k [] a = tt
  delete-All k ((j, w) ∷ m) (q, a) = elim (Bool-cases (j == k)) [
    | inl same ↦ rw same (delete-All k m a)
    | inr other ↦ rw other (q, delete-All k m a)
  ]

  pub lookup-All :
      (k : Text) (v : V) (m : Map Text V) → AllEntries P m → lookup k m ≡ some v → P k v
  unfolding lookup
  lookup-All k v [] a e = absurd (ground arith)
  lookup-All k v ((j, w) ∷ m) (q, a) e = elim (Bool-cases (j == k)) [
    | inl same ↦
        let found : w ≡ v = ground arith in
        subst (λ v. P k v) found (subst (λ j. P j w) ((eq_iff j k).0 same) q)
    | inr other ↦ lookup-All k v m a (ground arith)
  ]

erase-All : (P : Text → Type 0) (k : Text) (ks : List Text) → All P ks → All P (erase k ks)
erase-All P k [] a = tt
erase-All P k (j ∷ ks) (p, a) = elim (Bool-cases (j == k)) [
  | inl same ↦ rw same a
  | inr other ↦ rw other (p, erase-All P k ks a)
]

append-All : (P : Text → Type 0) (k : Text) (ks : List Text) → All P ks → P k → All P (ks ++ k ∷ [])
append-All P k [] a p = (p, tt)
append-All P k (j ∷ ks) (q, a) p = (q, append-All P k ks a p)

module _ (Built : Text → Text → Text → Type 0) where
  -- every key under two names was built for them
  abbrev pub AllNames : Text → Map Text (List Text) → Type 0
  AllNames o = AllEntries (λ i keys. All (Built o i) keys)

  abbrev pub IsSound : Index → Type 0
  IsSound = AllEntries AllNames

  pub lookup-AllNames :
      (o i : Text) (names : Map Text (List Text))
      → AllNames o names
      → All (Built o i) (or_else (lookup i names) [])
  lookup-AllNames o i names a = elim (Option-cases (lookup i names)) [
    | inl e ↦ rw e tt
    | inr (keys, e) ↦ rw e (lookup-All (λ i keys. All (Built o i) keys) i keys names a e)
  ]

  pub add_key-IsSound :
      (o i k : Text) (index : Index) → Built o i k → IsSound index → IsSound (add_key o i k index)
  unfolding add_key
  add_key-IsSound o i k index b a = elim (Option-cases (lookup o index)) [
    | inl e ↦ rw (e, add_key) (insert-All AllNames o ((i, k ∷ []) ∷ []) index (((b, tt), tt)) a)
    | inr (names, e) ↦
        let named = lookup-All AllNames o names index a e in
        rw (e, add_key)
          (insert-All AllNames o _ index
            (insert-All (λ i keys. All (Built o i) keys) i _ names
              (append-All (Built o i) k _ (lookup-AllNames o i names named) b) named)
            a)
  ]

  prune_inner-AllNames :
      (o i : Text) (keys : List Text) (names : Map Text (List Text))
      → AllNames o names
      → AllNames o (prune_inner i keys names)
  unfolding prune_inner
  prune_inner-AllNames o i [] names a = delete-All (λ i keys. All (Built o i) keys) i names a
  prune_inner-AllNames o i (k ∷ keys) names a = a

  prune_outer-IsSound :
      (o : Text) (names : Map Text (List Text)) (index : Index)
      → AllNames o names
      → IsSound index
      → IsSound (prune_outer o names index)
  unfolding prune_outer
  prune_outer-IsSound o [] index n a = delete-All AllNames o index a
  prune_outer-IsSound o (entry ∷ names) index n a = insert-All AllNames o (entry ∷ names) index n a

  drop_key-AllNames :
      (o i k : Text) (keys : List Text) (names : Map Text (List Text))
      → All (Built o i) keys
      → AllNames o names
      → AllNames o (drop_key i k keys names)
  unfolding drop_key
  drop_key-AllNames o i k keys names b a = elim (Bool-cases (contains k keys)) [
    | inl there ↦ rw there (
        prune_inner-AllNames o i (erase k keys) _ (
          insert-All (λ i keys. All (Built o i) keys) i (erase k keys) names
            (erase-All (Built o i) k keys b) a))
    | inr absent ↦ rw absent (prune_inner-AllNames o i keys names a)
  ]

  pub remove_key-IsSound :
      (o i k : Text) (index : Index) → IsSound index → IsSound (remove_key o i k index)
  unfolding remove_key
  remove_key-IsSound o i k index a = elim (Option-cases (lookup o index)) [
    | inl e ↦ rw (e, remove_key) a
    | inr (names, e) ↦
        let named = lookup-All AllNames o names index a e in
        rw (e, remove_key)
          (prune_outer-IsSound o _ index
            (drop_key-AllNames o i k _ names (lookup-AllNames o i names named) named) a)
  ]
