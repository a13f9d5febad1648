-- ===== src/Direct/Index.antt =====
-- The indexes of `Direct`, read as functions from two names to a list of keys.
use authzcache.Base.{
  ◌≡◌, ◌&&◌, List, [], ◌∷◌, ◌++◌, Option, none, some, arith, Text, text_eq, ◌==◌, eq_iff, inl, inr,
  Option-cases, or_else, erase, erase_absent, if◌then◌else◌,
}
use authzcache.Base.Map.{
  Map, lookup, insert, delete, lookup-insert, lookup-delete, lookup_of_is_empty,
}
use authzcache.Direct.{Index, add_key, remove_key, prune_inner, prune_outer, drop_key}

abbrev pub keys_of : Text → Option (Map Text (List Text)) → List Text
keys_of inner none = []
keys_of inner (some names) = or_else (lookup inner names) []

-- The keys recorded under two names.
pub slot : Text → Text → Index → List Text
slot outer inner index = keys_of inner (lookup outer index)

slot_of_some :
    (o i : Text) (names : Map Text (List Text)) (index : Index)
    → lookup o index ≡ some names
    → slot o i index ≡ or_else (lookup i names) []
unfolding slot
slot_of_some o i names index e = rw e

-- A slot is what the entries under the outer name hold.
pub slot-names :
    (o i : Text) (index : Index)
    → slot o i index ≡ or_else (lookup i (or_else (lookup o index) [])) []
unfolding slot lookup
slot-names o i index = elim (Option-cases (lookup o index)) [ inl e ↦ rw e | inr (names, e) ↦ rw e ]

-- Adding a key appends it to one slot of the index, and no other slot changes.
pub slot-add_key :
    (o i k p j : Text) (index : Index)
    → slot p j (add_key o i k index)
      ≡ (if (o == p) && (i == j) then slot o i index ++ k ∷ [] else slot p j index)
unfolding slot add_key lookup
slot-add_key o i k p j index = elim (Option-cases (lookup o index)) [
  | inl e ↦ ground (arith, e, lookup-insert o p ((i, k ∷ []) ∷ []) index, eq_iff o p, eq_iff i j)
  | inr (names, e) ↦ ground (
    arith,
    e,
    lookup-insert o p (insert i (or_else (lookup i names) [] ++ k ∷ []) names) index,
    lookup-insert i j (or_else (lookup i names) [] ++ k ∷ []) names,
    eq_iff o p,
    eq_iff i j,
  )
]

lookup-drop_key :
    (i k j : Text) (names : Map Text (List Text))
    → or_else (lookup j (drop_key i k (or_else (lookup i names) []) names)) []
      ≡ (if i == j then erase k (or_else (lookup i names) []) else or_else (lookup j names) [])
unfolding drop_key prune_inner
lookup-drop_key i k j names = ground (
  arith,
  erase_absent k keys,
  lookup-insert i j (erase k keys) names,
  lookup-delete i j (insert i (erase k keys) names),
  lookup-delete i j names,
  eq_iff i j,
)
  where
    keys : List Text
    keys = or_else (lookup i names) []

slot-prune_outer :
    (o p j : Text) (names : Map Text (List Text)) (index : Index)
    → slot p j (prune_outer o names index)
      ≡ (if o == p then or_else (lookup j names) [] else slot p j index)
unfolding slot prune_outer
slot-prune_outer o p j names index = ground (
  arith,
  lookup-insert o p names index,
  lookup-delete o p index,
  lookup_of_is_empty j names,
  eq_iff o p,
)

-- Removing a key takes its first occurrence out of one slot, and no other slot changes.
pub slot-remove_key :
    (o i k p j : Text) (index : Index)
    → slot p j (remove_key o i k index)
      ≡ (if (o == p) && (i == j) then erase k (slot o i index) else slot p j index)
unfolding remove_key
slot-remove_key o i k p j index = elim (Option-cases (lookup o index)) [
  | inl e ↦ unfold slot in ground (arith, e, eq_iff o p)
  | inr (names, e) ↦
      rw (e, remove_key)
        (ground (
          arith,
          slot-prune_outer o p j (drop_key i k (or_else (lookup i names) []) names) index,
          lookup-drop_key i k j names,
          slot_of_some o i names index e,
          slot_of_some o j names index e,
          eq_iff o p,
          eq_iff i j,
        ))
]

-- Deleting an outer name empties its slots.
pub slot-delete :
    (o p j : Text) (index : Index)
    → slot p j (delete o index) ≡ (if o == p then [] else slot p j index)
unfolding slot
slot-delete o p j index = ground (arith, lookup-delete o p index)
