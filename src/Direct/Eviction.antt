-- ===== src/Direct/Eviction.antt =====
-- `addDirectRelation` and the eviction callback keep the cache and its indexes together.
use authzcache.Base.{
  ◌≡◌, refl, ◌∙◌, subst, true, false, List, [], ◌∷◌, none, some, arith, Text, text_eq, ◌==◌, eq_iff,
  eq_refl, inl, inr, Bool-cases, Option-cases, contains, contains-append, contains-erase_ne,
  if◌then◌else◌,
}
use authzcache.Base.Map.{lookup, insert, lookup-insert, lookup-delete}
use authzcache.Sdk.{Relation}
use authzcache.Lru.{Lru, LruLaws}
use authzcache.Direct.{
  Index, CachedGrant, DirectCache, key, add_key, remove_key, add_key_to_resource_index,
  add_key_to_target_index, remove_key_from_resource_index, remove_key_from_target_index,
  remove_index_on_cache_eviction, evict_all, add_direct_relation,
}
use authzcache.Direct.Index.{slot, slot-add_key, slot-remove_key}

-- The evidence that a sweep can find a key: it was built from a relation whose resource and target
-- are recorded for it, and both indexes list it under them.
pub record Located (resources targets : Index) (components : List (Text × (Text × Text))) (k : Text)
    : Type 0 where
  pub origin : Relation
  pub built : key origin ≡ k
  pub recorded : lookup k components ≡ some (origin.resource, origin.target)
  pub by_resource : contains k (slot origin.resource origin.target resources) ≡ true
  pub by_target : contains k (slot origin.target origin.resource targets) ≡ true

contains-add_key :
    (o i k p j x : Text) (index : Index)
    → contains x (slot p j index) ≡ true
    → contains x (slot p j (add_key o i k index)) ≡ true
contains-add_key o i k p j x index h = ground (
  arith,
  slot-add_key o i k p j index,
  contains-append x (slot o i index) (k ∷ []),
  eq_iff o p,
  eq_iff i j,
)

contains-add_key_self :
    (o i k : Text) (index : Index) → contains k (slot o i (add_key o i k index)) ≡ true
contains-add_key_self o i k index = ground (
  arith,
  slot-add_key o i k o i index,
  contains-append k (slot o i index) (k ∷ []),
  eq_refl o,
  eq_refl i,
  eq_refl k,
)

contains-remove_key_ne :
    (o i k p j x : Text) (index : Index)
    → (k == x) ≡ false
    → contains x (slot p j (remove_key o i k index)) ≡ contains x (slot p j index)
contains-remove_key_ne o i k p j x index h = ground (
  arith,
  slot-remove_key o i k p j index,
  contains-erase_ne k x (slot o i index) h,
  eq_iff o p,
  eq_iff i j,
)

module _ {lru : Lru CachedGrant} (laws : LruLaws lru) where
  open laws use {peek}

  abbrev pub LocatedIn : DirectCache lru → Text → Type 0
  LocatedIn d k = Located d.resources d.targets d.components k

  -- Every cached key is one that a sweep can find.
  abbrev pub IsIndexed : DirectCache lru → Type 0
  IsIndexed d = (k : Text) (g : CachedGrant) → peek d.cached k ≡ some g → LocatedIn d k

  evict-Located :
      (k j : Text) (d : DirectCache lru)
      → (k == j) ≡ false
      → LocatedIn d j
      → LocatedIn (remove_index_on_cache_eviction k d) j
  unfolding remove_index_on_cache_eviction remove_key_from_resource_index
      remove_key_from_target_index
  evict-Located k j d h l = elim (Option-cases (lookup k d.components)) [
    | inl e ↦ rw (e, remove_index_on_cache_eviction) l
    | inr ((r, t), e) ↦
        rw (e, remove_index_on_cache_eviction)
          (record {
            origin = l.origin;
            built = l.built;
            recorded = ground (arith, lookup-delete k j d.components);
            by_resource = ground (
              arith,
              contains-remove_key_ne r t k l.origin.resource l.origin.target j d.resources h,
            );
            by_target = ground (
              arith,
              contains-remove_key_ne t r k l.origin.target l.origin.resource j d.targets h,
            );
          })
  ]

  cached-evict :
      (k : Text) (d : DirectCache lru) → (remove_index_on_cache_eviction k d).cached ≡ d.cached
  unfolding remove_index_on_cache_eviction remove_key_from_resource_index
      remove_key_from_target_index
  cached-evict k d = elim (Option-cases (lookup k d.components)) [
    | inl e ↦ rw (e, remove_index_on_cache_eviction)
    | inr (_, e) ↦ rw (e, remove_index_on_cache_eviction)
  ]

  pub cached-evict_all : (ks : List Text) (d : DirectCache lru) → (evict_all ks d).cached ≡ d.cached
  unfolding evict_all
  cached-evict_all [] d = refl
  cached-evict_all (k ∷ ks) d =
      cached-evict_all ks (remove_index_on_cache_eviction k d) ∙ cached-evict k d

  evict_all-Located :
      (ks : List Text) (j : Text) (d : DirectCache lru)
      → contains j ks ≡ false
      → LocatedIn d j
      → LocatedIn (evict_all ks d) j
  unfolding evict_all
  evict_all-Located [] j d h l = l
  evict_all-Located (k ∷ ks) j d h l =
      evict_all-Located ks j (remove_index_on_cache_eviction k d) (ground arith)
        (evict-Located k j d (ground arith) l)

  record_key : Relation → DirectCache lru → DirectCache lru
  unfolding add_key_to_resource_index add_key_to_target_index
  record_key r d = add_key_to_target_index (key r) r.resource r.target (
      add_key_to_resource_index (key r) r.resource r.target
        (record d { components = insert (key r) (r.resource, r.target) d.components }))

  record_key-Located_self :
      (r : Relation) (d : DirectCache lru) → LocatedIn (record_key r d) (key r)
  unfolding record_key
  record_key-Located_self r d = record {
    origin = r;
    built = refl;
    recorded =
        ground (
          arith,
          lookup-insert (key r) (key r) (r.resource, r.target) d.components,
          eq_refl (key r),
        );
    by_resource = contains-add_key_self r.resource r.target (key r) d.resources;
    by_target = contains-add_key_self r.target r.resource (key r) d.targets;
  }

  record_key-Located_other :
      (r : Relation) (j : Text) (d : DirectCache lru)
      → (key r == j) ≡ false
      → LocatedIn d j
      → LocatedIn (record_key r d) j
  unfolding record_key
  record_key-Located_other r j d h l = record {
    origin = l.origin;
    built = l.built;
    recorded = ground (arith, lookup-insert (key r) j (r.resource, r.target) d.components);
    by_resource =
        contains-add_key r.resource r.target (key r) l.origin.resource l.origin.target j d.resources
          l.by_resource;
    by_target =
        contains-add_key r.target r.resource (key r) l.origin.target l.origin.resource j d.targets
          l.by_target;
  }

  -- `directRelationCache.Add` with the callbacks that it makes
  admit : Text → CachedGrant → DirectCache lru → DirectCache lru
  admit k grant d =
      evict_all (lru.add d.cached k grant).1 (record d { cached = (lru.add d.cached k grant).0 })

  pub cached-add_direct_relation :
      (r : Relation) (grant : CachedGrant) (d : DirectCache lru)
      → (add_direct_relation r grant d).cached ≡ (lru.add d.cached (key r) grant).0
  unfolding add_direct_relation add_key_to_resource_index add_key_to_target_index
  cached-add_direct_relation r grant d =
      cached-evict_all (lru.add d.cached (key r) grant).1
        (record d { cached = (lru.add d.cached (key r) grant).0 })

  survivor :
      (k j : Text) (grant : CachedGrant) (s : lru.State) {g : CachedGrant}
      → (k == j) ≡ false
      → peek (lru.add s k grant).0 j ≡ some g
      → (contains j (lru.add s k grant).1 ≡ false) × (peek s j ≡ some g)
  survivor k j grant s h e = ground (arith, laws.peek_add_other s k j grant h)

  -- Caching a direct grant, with the evictions that this causes, keeps every cached key findable.
  pub add_direct_relation-IsIndexed :
      (r : Relation) (grant : CachedGrant) (d : DirectCache lru)
      → IsIndexed d
      → IsIndexed (add_direct_relation r grant d)
  unfolding add_direct_relation record_key admit
  add_direct_relation-IsIndexed r grant d h k g e = elim (Bool-cases (key r == k)) [
    | inl same ↦
        subst (LocatedIn (add_direct_relation r grant d)) ((eq_iff (key r) k).0 same)
          (record_key-Located_self r (admit (key r) grant d))
    | inr other ↦
        let kept =
          survivor (key r) k grant d.cached other
            (subst (λ s. peek s k ≡ some g) (cached-add_direct_relation r grant d) e) in
        record_key-Located_other r k (admit (key r) grant d) other (
          evict_all-Located (lru.add d.cached (key r) grant).1 k
            (record d { cached = (lru.add d.cached (key r) grant).0 }) kept.0 (h k g kept.1))
  ]

  -- What the cache holds after a direct grant is added: the grant under its key, and elsewhere what
  -- it held before, less what was pushed out.
  pub peek-add_direct_relation :
      (r : Relation) (grant : CachedGrant) (d : DirectCache lru) (k : Text)
      → peek (add_direct_relation r grant d).cached k ≡ (
          if key r == k
          then some grant
          else if contains k (lru.add d.cached (key r) grant).1
          then none
          else peek d.cached k)
  peek-add_direct_relation r grant d k = ground (
    arith,
    cached-add_direct_relation r grant d,
    laws.peek_add_self d.cached (key r) grant,
    laws.peek_add_other d.cached (key r) k grant,
    eq_iff (key r) k,
  )
