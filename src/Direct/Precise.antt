-- ===== src/Direct/Precise.antt =====
-- What happens to the cache of direct grants, as a relation; both indexes stay sound under it, so that
-- a sweep removes no grant of a relation with other names.
use authzcache.Base.{
  ◌≡◌, ◌≢◌, refl, sym, ◌∙◌, subst, true, List, [], ◌∷◌, Option, inl, inr, arith, Text, text_eq,
  Bool-cases, Option-cases, All, contains, or_else, eq_iff, ◌==◌,
}
use authzcache.Base.Map.{Map, lookup}
use authzcache.Sdk.{Relation}
use authzcache.Lru.{Lru, LruLaws}
use authzcache.Direct.{
  Index, CachedGrant, DirectCache, key, add_key_to_resource_index, add_key_to_target_index,
  remove_key_from_resource_index, remove_key_from_target_index, remove_index_on_cache_eviction,
  evict_all, add_direct_relation, remove_direct_relations_by_resource,
  remove_direct_relations_by_target, remove_direct_relations_by_resource_and_target,
}
use authzcache.Direct.Sweep.{IsUnambiguous, listed, peek-remove_names}
use authzcache.Direct.Sound.{
  AllNames, IsSound, delete-All, lookup-All, add_key-IsSound, remove_key-IsSound,
}

-- a relation of the resource and the target has the key
pub record Built (resource target k : Text) : Type 0 where
  pub origin : Relation
  pub same_resource : origin.resource ≡ resource
  pub same_target : origin.target ≡ target
  pub same_key : key origin ≡ k

abbrev BuiltFor : Text → Text → Text → Type 0
BuiltFor target resource k = Built resource target k

module _ {lru : Lru CachedGrant} where
  -- One cache of direct grants comes from another: its indexes are the same, or empty, or a grant was
  -- added, or a resource or a target was swept.
  pub data Trace : DirectCache lru → DirectCache lru → Type 0 where
    aged :
        {d d' : DirectCache lru} → d'.resources ≡ d.resources → d'.targets ≡ d.targets → Trace d d'
    emptied : {d d' : DirectCache lru} → d'.resources ≡ [] → d'.targets ≡ [] → Trace d d'
    stored :
        {d : DirectCache lru} (r : Relation) (g : CachedGrant) → Trace d (add_direct_relation r g d)
    swept_resource :
        {d : DirectCache lru} (r : Text) → Trace d (remove_direct_relations_by_resource r d)
    swept_target :
        {d : DirectCache lru} (t : Text) → Trace d (remove_direct_relations_by_target t d)
    and_then : {d d' d'' : DirectCache lru} → Trace d d' → Trace d' d'' → Trace d d''

  -- Both indexes list a key only under the names of a relation that has it.
  pub record IsPrecise (d : DirectCache lru) : Type 0 where
    pub by_resource : IsSound Built d.resources
    pub by_target : IsSound BuiltFor d.targets

  evict-IsPrecise :
      (k : Text) (d : DirectCache lru)
      → IsPrecise d
      → IsPrecise (remove_index_on_cache_eviction k d)
  unfolding remove_index_on_cache_eviction remove_key_from_resource_index
      remove_key_from_target_index
  evict-IsPrecise k d p = elim (Option-cases (lookup k d.components)) [
    | inl e ↦ rw (e, remove_index_on_cache_eviction) p
    | inr ((r, t), e) ↦
        rw (e, remove_index_on_cache_eviction)
          (record {
            by_resource = remove_key-IsSound Built r t k d.resources p.by_resource;
            by_target = remove_key-IsSound BuiltFor t r k d.targets p.by_target;
          })
  ]

  evict_all-IsPrecise :
      (ks : List Text) (d : DirectCache lru) → IsPrecise d → IsPrecise (evict_all ks d)
  unfolding evict_all
  evict_all-IsPrecise [] d p = p
  evict_all-IsPrecise (k ∷ ks) d p =
      evict_all-IsPrecise ks (remove_index_on_cache_eviction k d) (evict-IsPrecise k d p)

  add_direct_relation-IsPrecise :
      (r : Relation) (g : CachedGrant) (d : DirectCache lru)
      → IsPrecise d
      → IsPrecise (add_direct_relation r g d)
  unfolding add_direct_relation add_key_to_resource_index add_key_to_target_index
  add_direct_relation-IsPrecise r g d p =
      let built : Built r.resource r.target (key r) = record {
        origin = r;
        same_resource = refl;
        same_target = refl;
        same_key = refl;
      } in
      let left =
        evict_all-IsPrecise (lru.add d.cached (key r) g).1
          (record d { cached = (lru.add d.cached (key r) g).0 })
          (record { by_resource = p.by_resource; by_target = p.by_target }) in
      record {
        by_resource = add_key-IsSound Built r.resource r.target (key r) _ built left.by_resource;
        by_target = add_key-IsSound BuiltFor r.target r.resource (key r) _ built left.by_target;
      }

  -- Whatever happens to the cache keeps its indexes sound.
  pub Trace-IsPrecise : (d d' : DirectCache lru) → Trace d d' → IsPrecise d → IsPrecise d'
  unfolding remove_direct_relations_by_resource remove_direct_relations_by_target
  Trace-IsPrecise d d' (aged r t) p = record {
    by_resource = subst (IsSound Built) (sym r) p.by_resource;
    by_target = subst (IsSound BuiltFor) (sym t) p.by_target;
  }
  Trace-IsPrecise d d' (emptied r t) p = record {
    by_resource = subst (IsSound Built) (sym r) tt;
    by_target = subst (IsSound BuiltFor) (sym t) tt;
  }
  Trace-IsPrecise d _ (stored r g) p = add_direct_relation-IsPrecise r g d p
  Trace-IsPrecise d _ (swept_resource r) p = record {
    by_resource = delete-All (AllNames Built) r d.resources p.by_resource;
    by_target = p.by_target;
  }
  Trace-IsPrecise d _ (swept_target t) p = record {
    by_resource = p.by_resource;
    by_target = delete-All (AllNames BuiltFor) t d.targets p.by_target;
  }
  Trace-IsPrecise d d'' (and_then {d' = d'} s t) p =
      Trace-IsPrecise d' d'' t (Trace-IsPrecise d d' s p)

-- a key that is listed was built for the outer name
listed-Built :
    (B : Text → Text → Text → Type 0) (o k : Text) (names : Map Text (List Text))
    → AllNames B o names
    → listed names k ≡ true
    → (i : Text) × B o i k
unfolding listed
listed-Built B o k [] a e = absurd (ground arith)
listed-Built B o k ((i, keys) ∷ names) (b, a) e = elim (Bool-cases (contains k keys)) [
  | inl there ↦ (i, contains-All keys b there)
  | inr absent ↦ listed-Built B o k names a (ground arith)
]
  where
    contains-All : (keys : List Text) → All (B o i) keys → contains k keys ≡ true → B o i k
    contains-All [] b e = absurd (ground arith)
    contains-All (j ∷ keys) (here, b) e = elim (Bool-cases (j == k)) [
      | inl same ↦ subst (λ j. B o i j) ((eq_iff j k).0 same) here
      | inr other ↦ contains-All keys b (ground arith)
    ]

found-Built :
    (B : Text → Text → Text → Type 0) (o k : Text) (index : Index)
    → IsSound B index
    → listed (or_else (lookup o index) []) k ≡ true
    → (i : Text) × B o i k
unfolding listed
found-Built B o k index a e = elim (Option-cases (lookup o index)) [
  | inl none_there ↦ absurd (ground arith)
  | inr (names, there) ↦ listed-Built B o k names (lookup-All (AllNames B) o names index a there) (
      subst {A = Option (Map Text (List Text))} (λ found. listed (or_else found []) k ≡ true) there
        e)
]

module _ {lru : Lru CachedGrant} (laws : LruLaws lru) (d : DirectCache lru) (p : IsPrecise d) where
  open laws use {peek}

  -- A sweep by a resource leaves what is cached for a relation with another one.
  pub by_resource_spares :
      (r : Text) (q : Relation)
      → IsUnambiguous q
      → q.resource ≢ r
      → peek (remove_direct_relations_by_resource r d).cached (key q) ≡ peek d.cached (key q)
  unfolding remove_direct_relations_by_resource
  by_resource_spares r q u other =
      elim (Bool-cases (listed (or_else (lookup r d.resources) []) (key q))) [
        | inl there ↦
            let (t, b) = found-Built Built r (key q) d.resources p.by_resource there in
            absurd (other (sym (u b.origin b.same_key).0 ∙ b.same_resource))
        | inr absent ↦ ground (
          arith,
          absent,
          peek-remove_names laws (or_else (lookup r d.resources) []) d.cached (key q),
        )
      ]

  -- A sweep by a target leaves what is cached for a relation with another one.
  pub by_target_spares :
      (t : Text) (q : Relation)
      → IsUnambiguous q
      → q.target ≢ t
      → peek (remove_direct_relations_by_target t d).cached (key q) ≡ peek d.cached (key q)
  unfolding remove_direct_relations_by_target
  by_target_spares t q u other =
      elim (Bool-cases (listed (or_else (lookup t d.targets) []) (key q))) [
        | inl there ↦
            let (r, b) = found-Built BuiltFor t (key q) d.targets p.by_target there in
            absurd (other (sym (u b.origin b.same_key).1 ∙ b.same_target))
        | inr absent ↦ ground (
          arith,
          absent,
          peek-remove_names laws (or_else (lookup t d.targets) []) d.cached (key q),
        )
      ]

module _ {lru : Lru CachedGrant} (laws : LruLaws lru) where
  open laws use {peek}

  pub both-Trace :
      (r : Relation) (d : DirectCache lru)
      → Trace d (remove_direct_relations_by_resource_and_target r d)
  unfolding remove_direct_relations_by_resource_and_target
  both-Trace r d = and_then (swept_resource r.resource) (swept_target r.target)

  -- The sweep for a written relation leaves what is cached for one with another resource and another
  -- target.
  pub both_spares :
      (r q : Relation) (d : DirectCache lru)
      → IsPrecise d
      → IsUnambiguous q
      → q.resource ≢ r.resource
      → q.target ≢ r.target
      → peek (remove_direct_relations_by_resource_and_target r d).cached (key q)
        ≡ peek d.cached (key q)
  unfolding remove_direct_relations_by_resource_and_target
  both_spares r q d p u other_resource other_target =
      let swept = remove_direct_relations_by_resource r.resource d in
      by_target_spares laws swept (Trace-IsPrecise d swept (swept_resource r.resource) p) r.target q
        u other_target
      ∙ by_resource_spares laws d p r.resource q u other_resource
