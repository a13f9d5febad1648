-- ===== src/Direct/Sweep.antt =====
-- `removeDirectRelationsByResource` and `removeDirectRelationsByTarget` remove every cached grant
-- on the name, and nothing else.
use authzcache.Base.{
  ◌≡◌, refl, subst, Bool, true, false, ◌||◌, List, [], ◌∷◌, none, some, arith, Text, text_eq, ◌==◌,
  eq_iff, inl, inr, Option-cases, or_else, contains, if◌then◌else◌,
}
use authzcache.Base.Map.{Map, lookup}
use authzcache.Sdk.{Relation}
use authzcache.Lru.{Lru, LruLaws}
use authzcache.Direct.{
  Index, CachedGrant, DirectCache, key, remove_keys, remove_names,
  remove_direct_relations_by_resource, remove_direct_relations_by_target,
}
use authzcache.Direct.Index.{slot, slot-delete, slot-names}
use authzcache.Direct.Eviction.{Located, IsIndexed}

-- every key under one outer name
unfoldable pub listed : Map Text (List Text) → Text → Bool
listed [] k = false
listed ((_, keys) ∷ names) k = contains k keys || listed names k

listed_of_lookup :
    (inner k : Text) (names : Map Text (List Text))
    → contains k (or_else (lookup inner names) []) ≡ true
    → listed names k ≡ true
unfolding lookup listed
listed_of_lookup inner k [] h = h
listed_of_lookup inner k ((i, keys) ∷ names) h =
    ground (arith, listed_of_lookup inner k names, eq_iff i inner)

slot-listed :
    (o i k : Text) (index : Index)
    → contains k (slot o i index) ≡ true
    → listed (or_else (lookup o index) []) k ≡ true
slot-listed o i k index h =
    listed_of_lookup i k (or_else (lookup o index) [])
      (subst (λ keys. contains k keys ≡ true) (slot-names o i index) h)

-- No other resource and target make the same key.
abbrev pub IsUnambiguous : Relation → Type 0
IsUnambiguous q = (p : Relation) → key p ≡ key q → (p.resource ≡ q.resource) × (p.target ≡ q.target)

module _ {lru : Lru CachedGrant} (laws : LruLaws lru) where
  open laws use {peek}

  peek-remove_keys :
      (ks : List Text) (s : lru.State) (k : Text)
      → peek (remove_keys lru ks s) k ≡ (if contains k ks then none else peek s k)
  unfolding remove_keys
  peek-remove_keys [] s k = refl
  peek-remove_keys (j ∷ ks) s k =
      ground (arith, peek-remove_keys ks (lru.remove s j) k, laws.peek_remove s j k)

  pub peek-remove_names :
      (names : Map Text (List Text)) (s : lru.State) (k : Text)
      → peek (remove_names lru names s) k ≡ (if listed names k then none else peek s k)
  unfolding remove_names listed
  peek-remove_names [] s k = refl
  peek-remove_names ((i, keys) ∷ names) s k =
      ground (arith, peek-remove_names names (remove_keys lru keys s) k, peek-remove_keys keys s k)

  pub survives :
      (names : Map Text (List Text)) (s : lru.State) (k : Text) {g : CachedGrant}
      → peek (remove_names lru names s) k ≡ some g
      → (listed names k ≡ false) × (peek s k ≡ some g)
  survives names s k e = ground (arith, peek-remove_names names s k)

  module _ (d : DirectCache lru) (h : IsIndexed laws d) where
    sweep_resource :
        (r k : Text) {g : CachedGrant}
        → peek (remove_direct_relations_by_resource r d).cached k ≡ some g
        → (l : Located d.resources d.targets d.components k) × ((r == l.origin.resource) ≡ false)
    unfolding remove_direct_relations_by_resource
    sweep_resource r k {g} e =
        let (unlisted, before) = survives (or_else (lookup r d.resources) []) d.cached k e in
        let l = h k g before in
        (
          l,
          ground (
            arith,
            unlisted,
            slot-listed l.origin.resource l.origin.target k d.resources l.by_resource,
            eq_iff r l.origin.resource,
          ),
        )

    sweep_target :
        (t k : Text) {g : CachedGrant}
        → peek (remove_direct_relations_by_target t d).cached k ≡ some g
        → (l : Located d.resources d.targets d.components k) × ((t == l.origin.target) ≡ false)
    unfolding remove_direct_relations_by_target
    sweep_target t k {g} e =
        let (unlisted, before) = survives (or_else (lookup t d.targets) []) d.cached k e in
        let l = h k g before in
        (
          l,
          ground (
            arith,
            unlisted,
            slot-listed l.origin.target l.origin.resource k d.targets l.by_target,
            eq_iff t l.origin.target,
          ),
        )

    -- A sweep by resource keeps every cached key findable.
    pub by_resource-IsIndexed :
        (r : Text) → IsIndexed laws (remove_direct_relations_by_resource r d)
    unfolding remove_direct_relations_by_resource
    by_resource-IsIndexed r k g e =
        let (l, other) = sweep_resource r k e in
        record {
          origin = l.origin;
          built = l.built;
          recorded = l.recorded;
          by_resource = ground (
            arith,
            slot-delete r l.origin.resource l.origin.target d.resources,
            l.by_resource,
            other,
          );
          by_target = l.by_target;
        }

    -- A sweep by target keeps every cached key findable.
    pub by_target-IsIndexed : (t : Text) → IsIndexed laws (remove_direct_relations_by_target t d)
    unfolding remove_direct_relations_by_target
    by_target-IsIndexed t k g e =
        let (l, other) = sweep_target t k e in
        record {
          origin = l.origin;
          built = l.built;
          recorded = l.recorded;
          by_resource = l.by_resource;
          by_target = ground (
            arith,
            slot-delete t l.origin.target l.origin.resource d.targets,
            l.by_target,
            other,
          );
        }

    -- No grant of the resource stays cached.
    pub by_resource_complete :
        (q : Relation)
        → IsUnambiguous q
        → peek (remove_direct_relations_by_resource q.resource d).cached (key q) ≡ none
    by_resource_complete q u =
        elim (Option-cases
          (peek (remove_direct_relations_by_resource q.resource d).cached (key q))) [
            | inl e ↦ e
            | inr (g, e) ↦
                let (l, other) = sweep_resource q.resource (key q) e in
                absurd
                  (ground (arith, other, u l.origin l.built, eq_iff q.resource l.origin.resource))
          ]

    -- No grant of the target stays cached.
    pub by_target_complete :
        (q : Relation)
        → IsUnambiguous q
        → peek (remove_direct_relations_by_target q.target d).cached (key q) ≡ none
    by_target_complete q u =
        elim (Option-cases (peek (remove_direct_relations_by_target q.target d).cached (key q))) [
          | inl e ↦ e
          | inr (g, e) ↦
              let (l, other) = sweep_target q.target (key q) e in
              absurd (ground (arith, other, u l.origin l.built, eq_iff q.target l.origin.target))
        ]
