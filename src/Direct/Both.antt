-- ===== src/Direct/Both.antt =====
-- `removeDirectRelationsByResourceAndTarget`, the sweep that a write makes for each relation, and
-- what any sweep leaves cached.
use authzcache.Base.{
  ◌≡◌, refl, List, ◌∷◌, ◌∙◌, ap, subst, [], none, some, ◌⊎◌, inl, inr, arith, Text, text_eq,
  or_else, Option-cases,
}
use authzcache.Base.Map.{lookup}
use authzcache.Sdk.{Relation}
use authzcache.Lru.{Lru, LruLaws}
use authzcache.Direct.{
  CachedGrant, DirectCache, key, remove_direct_relations_by_resource,
  remove_direct_relations_by_target, remove_direct_relations_by_resource_and_target, purge_direct,
  evict_all, remove_index_on_cache_eviction,
}
use authzcache.Direct.Eviction.{IsIndexed, cached-evict_all}
use authzcache.Direct.Sweep.{
  IsUnambiguous, survives, by_resource-IsIndexed, by_target-IsIndexed, by_resource_complete,
  by_target_complete,
}

abbrev pub empty_direct : (lru : Lru CachedGrant) → lru.State → DirectCache lru
empty_direct lru s = record { cached = s; resources = []; targets = []; components = [] }

module _ {lru : Lru CachedGrant} (laws : LruLaws lru) where
  open laws use {peek, peek_purge}

  -- A sweep by resource caches nothing new.
  pub by_resource_keeps :
      (r k : Text) (d : DirectCache lru) {g : CachedGrant}
      → peek (remove_direct_relations_by_resource r d).cached k ≡ some g
      → peek d.cached k ≡ some g
  unfolding remove_direct_relations_by_resource
  by_resource_keeps r k d e = (survives laws (or_else (lookup r d.resources) []) d.cached k e).1

  -- A sweep by target caches nothing new.
  pub by_target_keeps :
      (t k : Text) (d : DirectCache lru) {g : CachedGrant}
      → peek (remove_direct_relations_by_target t d).cached k ≡ some g
      → peek d.cached k ≡ some g
  unfolding remove_direct_relations_by_target
  by_target_keeps t k d e = (survives laws (or_else (lookup t d.targets) []) d.cached k e).1

  pub both_keeps :
      (r : Relation) (k : Text) (d : DirectCache lru) {g : CachedGrant}
      → peek (remove_direct_relations_by_resource_and_target r d).cached k ≡ some g
      → peek d.cached k ≡ some g
  unfolding remove_direct_relations_by_resource_and_target
  both_keeps r k d e =
      by_resource_keeps r.resource k d
        (by_target_keeps r.target k (remove_direct_relations_by_resource r.resource d) e)

  pub both-IsIndexed :
      (r : Relation) (d : DirectCache lru)
      → IsIndexed laws d
      → IsIndexed laws (remove_direct_relations_by_resource_and_target r d)
  unfolding remove_direct_relations_by_resource_and_target
  both-IsIndexed r d h =
      by_target-IsIndexed laws (remove_direct_relations_by_resource r.resource d)
        (by_resource-IsIndexed laws d h r.resource) r.target

  -- If every cached key is findable, the sweep for a written relation leaves no grant cached for a
  -- relation with an unambiguous key that shares the resource or the target.
  pub both_complete :
      (r q : Relation) (d : DirectCache lru)
      → IsIndexed laws d
      → IsUnambiguous q
      → (q.resource ≡ r.resource) ⊎ (q.target ≡ r.target)
      → peek (remove_direct_relations_by_resource_and_target r d).cached (key q) ≡ none
  unfolding remove_direct_relations_by_resource_and_target
  both_complete r q d h u (inl e) =
      elim (Option-cases
        (peek (remove_direct_relations_by_resource_and_target r d).cached (key q))) [
          | inl gone ↦ gone
          | inr (g, left) ↦
              let kept =
                by_target_keeps r.target (key q) (remove_direct_relations_by_resource r.resource d)
                  left in
              let gone = by_resource_complete laws d h q u in
              absurd (
                ground (
                  arith,
                  kept,
                  subst (λ o. peek (remove_direct_relations_by_resource o d).cached (key q) ≡ none)
                      e gone,
                ))
        ]
  both_complete r q d h u (inr e) =
      subst
        (λ o.
          peek
            (remove_direct_relations_by_target o
              (remove_direct_relations_by_resource r.resource d)).cached
            (key q)
          ≡ none)
        e
        (by_target_complete laws (remove_direct_relations_by_resource r.resource d)
          (by_resource-IsIndexed laws d h r.resource) q u)

  -- A purge empties the cache, whatever its eviction callbacks do.
  pub peek-purge_direct : (d : DirectCache lru) (k : Text) → peek (purge_direct d).cached k ≡ none
  unfolding purge_direct
  peek-purge_direct d k =
      ap (λ s. peek s k)
        (cached-evict_all laws (lru.purge d.cached).1 (record {
          cached = (lru.purge d.cached).0;
          resources = [];
          targets = [];
          components = [];
        }))
      ∙ peek_purge d.cached k

  pub purge_direct-IsIndexed : (d : DirectCache lru) → IsIndexed laws (purge_direct d)
  purge_direct-IsIndexed d k g e = absurd (ground (arith, peek-purge_direct d k))

  evict_all_empty :
      (ks : List Text) (s : lru.State) → evict_all ks (empty_direct lru s) ≡ empty_direct lru s
  unfolding evict_all remove_index_on_cache_eviction lookup
  evict_all_empty [] s = refl
  evict_all_empty (k ∷ ks) s = evict_all_empty ks s

  -- and leaves the indexes and the recorded keys empty.
  pub purge_direct-empty :
      (d : DirectCache lru) → purge_direct d ≡ empty_direct lru (lru.purge d.cached).0
  unfolding purge_direct
  purge_direct-empty d = evict_all_empty (lru.purge d.cached).1 (lru.purge d.cached).0
