-- ===== src/Cache/Updates/Invalidation.antt =====
-- After a write through the cache no grant that the write may change is cached.
use authzcache.Base.{
  ℕ, ◌≡◌, refl, sym, ◌∙◌, ap, subst, List, [], ◌∷◌, none, ◌⊎◌, inl, inr, arith, text_eq,
  Option-cases,
}
use authzcache.Sdk.{Relation}
use authzcache.Direct.{DirectCache, key, remove_direct_relations_by_resource_and_target}
use authzcache.Direct.Eviction.{IsIndexed}
use authzcache.Direct.Sweep.{IsUnambiguous}
use authzcache.Direct.Both.{both_keeps, both-IsIndexed, both_complete}
use authzcache.Cache.{Externals, ExternalLaws, ProjectCache}
use authzcache.Cache.Lookup.{add_to_lookup_cache}
use authzcache.Cache.Lookup.Frame.{add_to_lookup_cache-frame}
use authzcache.Cache.Updates.{
  purge_indirect, sweep_relation, added_loop, deleted_loop, update_cache_with_added_relations,
  update_cache_with_deleted_relations,
}

-- A relation of the list has the resource or the target.
abbrev pub Touches : List Relation → Relation → Type 0
Touches [] q = ⊥
Touches (r ∷ rs) q = ((q.resource ≡ r.resource) ⊎ (q.target ≡ r.target)) ⊎ Touches rs q

module _ {x : Externals} (laws : ExternalLaws x) where
  open laws.grants use {peek}

  abbrev pub Indexed : ProjectCache x → Type 0
  Indexed pc = IsIndexed laws.grants pc.direct

  -- nothing is cached for the key, in either cache
  abbrev pub Forgotten : Relation → ProjectCache x → Type 0
  Forgotten q pc = (peek pc.direct.cached (key q) ≡ none) × (peek pc.indirect (key q) ≡ none)

  -- the sweeps of a list of relations, on the direct cache alone
  unfoldable pub sweep_all : List Relation → DirectCache x.grants → DirectCache x.grants
  sweep_all [] d = d
  sweep_all (r ∷ rs) d = sweep_all rs (remove_direct_relations_by_resource_and_target r d)

  pub direct-deleted :
      (rs : List Relation) (pc : ProjectCache x)
      → (deleted_loop rs pc).direct ≡ sweep_all rs pc.direct
  unfolding deleted_loop sweep_relation sweep_all
  direct-deleted [] pc = refl
  direct-deleted (r ∷ rs) pc = direct-deleted rs (sweep_relation r pc)

  pub indirect-deleted :
      (rs : List Relation) (pc : ProjectCache x) → (deleted_loop rs pc).indirect ≡ pc.indirect
  unfolding deleted_loop sweep_relation
  indirect-deleted [] pc = refl
  indirect-deleted (r ∷ rs) pc = indirect-deleted rs (sweep_relation r pc)

  pub direct-added :
      (now : ℕ) (rs : List Relation) (pc : ProjectCache x)
      → (added_loop now rs pc).direct ≡ sweep_all rs pc.direct
  unfolding added_loop sweep_relation sweep_all
  direct-added now [] pc = refl
  direct-added now (r ∷ rs) pc =
      direct-added now rs (add_to_lookup_cache now r (sweep_relation r pc))
      ∙ ap (sweep_all rs)
          (ap (λ s. s.direct) (add_to_lookup_cache-frame now r (sweep_relation r pc)).same)

  pub indirect-added :
      (now : ℕ) (rs : List Relation) (pc : ProjectCache x)
      → (added_loop now rs pc).indirect ≡ pc.indirect
  unfolding added_loop sweep_relation
  indirect-added now [] pc = refl
  indirect-added now (r ∷ rs) pc =
      indirect-added now rs (add_to_lookup_cache now r (sweep_relation r pc))
      ∙ ap (λ s. s.indirect) (add_to_lookup_cache-frame now r (sweep_relation r pc)).same

  none_of_keeps :
      (r q : Relation) (d : DirectCache x.grants)
      → peek d.cached (key q) ≡ none
      → peek (remove_direct_relations_by_resource_and_target r d).cached (key q) ≡ none
  none_of_keeps r q d e =
      elim (Option-cases
        (peek (remove_direct_relations_by_resource_and_target r d).cached (key q))) [
          | inl gone ↦ gone
          | inr (g, left) ↦ absurd (ground (arith, both_keeps laws.grants r (key q) d left))
        ]

  sweep_all-none :
      (q : Relation) (rs : List Relation) (d : DirectCache x.grants)
      → peek d.cached (key q) ≡ none
      → peek (sweep_all rs d).cached (key q) ≡ none
  unfolding sweep_all
  sweep_all-none q [] d e = e
  sweep_all-none q (r ∷ rs) d e =
      sweep_all-none q rs (remove_direct_relations_by_resource_and_target r d)
        (none_of_keeps r q d e)

  sweep_all-Touches :
      (q : Relation) (rs : List Relation) (d : DirectCache x.grants)
      → IsIndexed laws.grants d
      → IsUnambiguous q
      → Touches rs q
      → peek (sweep_all rs d).cached (key q) ≡ none
  unfolding sweep_all
  sweep_all-Touches q [] d h u t = absurd t
  sweep_all-Touches q (r ∷ rs) d h u (inl t) =
      sweep_all-none q rs (remove_direct_relations_by_resource_and_target r d)
        (both_complete laws.grants r q d h u t)
  sweep_all-Touches q (r ∷ rs) d h u (inr t) =
      sweep_all-Touches q rs (remove_direct_relations_by_resource_and_target r d)
        (both-IsIndexed laws.grants r d h) u t

  sweep_all-IsIndexed :
      (rs : List Relation) (d : DirectCache x.grants)
      → IsIndexed laws.grants d
      → IsIndexed laws.grants (sweep_all rs d)
  unfolding sweep_all
  sweep_all-IsIndexed [] d h = h
  sweep_all-IsIndexed (r ∷ rs) d h =
      sweep_all-IsIndexed rs (remove_direct_relations_by_resource_and_target r d)
        (both-IsIndexed laws.grants r d h)

  -- After `UpdateCacheWithDeletedRelations` nothing is cached for a relation that shares its resource
  -- or its target with a deleted one, in either cache, if every cached direct grant was indexed.
  pub deleted-Forgotten :
      (q : Relation) (rs : List Relation) (pc : ProjectCache x)
      → Indexed pc
      → IsUnambiguous q
      → Touches rs q
      → Forgotten q (update_cache_with_deleted_relations rs pc)
  unfolding update_cache_with_deleted_relations purge_indirect
  deleted-Forgotten q [] pc h u t = absurd t
  deleted-Forgotten q (r ∷ rs) pc h u t =
      let start = purge_indirect pc in
      (
        ap (λ d. peek d.cached (key q)) (direct-deleted (r ∷ rs) start)
            ∙ sweep_all-Touches q (r ∷ rs) pc.direct h u t,
        ap (λ s. peek s (key q)) (indirect-deleted (r ∷ rs) start)
            ∙ laws.grants.peek_purge pc.indirect (key q),
      )

  -- The same after `UpdateCacheWithAddedRelations`: a cached denial does not survive the write that
  -- grants it.
  pub added-Forgotten :
      (now : ℕ) (q : Relation) (rs : List Relation) (pc : ProjectCache x)
      → Indexed pc
      → IsUnambiguous q
      → Touches rs q
      → Forgotten q (update_cache_with_added_relations now rs pc)
  unfolding update_cache_with_added_relations purge_indirect
  added-Forgotten now q [] pc h u t = absurd t
  added-Forgotten now q (r ∷ rs) pc h u t =
      let start = purge_indirect pc in
      (
        ap (λ d. peek d.cached (key q)) (direct-added now (r ∷ rs) start)
            ∙ sweep_all-Touches q (r ∷ rs) pc.direct h u t,
        ap (λ s. peek s (key q)) (indirect-added now (r ∷ rs) start)
            ∙ laws.grants.peek_purge pc.indirect (key q),
      )

  pub deleted-Indexed :
      (rs : List Relation) (pc : ProjectCache x)
      → Indexed pc
      → Indexed (update_cache_with_deleted_relations rs pc)
  unfolding update_cache_with_deleted_relations purge_indirect
  deleted-Indexed [] pc h = h
  deleted-Indexed (r ∷ rs) pc h =
      subst (IsIndexed laws.grants) (sym (direct-deleted (r ∷ rs) (purge_indirect pc)))
        (sweep_all-IsIndexed (r ∷ rs) pc.direct h)

  pub added-Indexed :
      (now : ℕ) (rs : List Relation) (pc : ProjectCache x)
      → Indexed pc
      → Indexed (update_cache_with_added_relations now rs pc)
  unfolding update_cache_with_added_relations purge_indirect
  added-Indexed now [] pc h = h
  added-Indexed now (r ∷ rs) pc h =
      subst (IsIndexed laws.grants) (sym (direct-added now (r ∷ rs) (purge_indirect pc)))
        (sweep_all-IsIndexed (r ∷ rs) pc.direct h)
