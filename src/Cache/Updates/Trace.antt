-- ===== src/Cache/Updates/Trace.antt =====
-- What the three update methods do to the cache of direct grants.
use authzcache.Base.{
  ℕ, ◌≡◌, refl, ap, ◌∙◌, sym, subst, List, [], ◌∷◌, Option, none, some, inl, inr, Bool-cases,
  text_eq,
}
use authzcache.Sdk.{Relation, Check}
use authzcache.Direct.{CachedGrant, DirectCache, remove_direct_relations_by_resource_and_target}
use authzcache.Direct.Precise.{Trace, aged, stored, and_then, both-Trace}
use authzcache.Cache.{Externals, ExternalLaws, ProjectCache}
use authzcache.Cache.Updates.{
  purge_indirect, sweep_relation, added_loop, deleted_loop, update_cache_with_added_relations,
  update_cache_with_deleted_relations, grant_of, store_grant, store_check, update_cache_with_checks,
  add_indirect_relation,
}
use authzcache.Cache.Lookup.{add_to_lookup_cache}
use authzcache.Cache.Lookup.Frame.{add_to_lookup_cache-frame}
use authzcache.Cache.Updates.Invalidation.{sweep_all, direct-added, direct-deleted}

module _ {x : Externals} (laws : ExternalLaws x) where
  pub sweep_all-Trace :
      (rs : List Relation) (d : DirectCache x.grants) → Trace d (sweep_all laws rs d)
  unfolding sweep_all
  sweep_all-Trace [] d = aged refl refl
  sweep_all-Trace (r ∷ rs) d =
      and_then (both-Trace laws.grants r d)
        (sweep_all-Trace rs (remove_direct_relations_by_resource_and_target r d))

  -- an empty list changes nothing
  pub added-sweeps :
      (now : ℕ) (rs : List Relation) (pc : ProjectCache x)
      → (update_cache_with_added_relations now rs pc).direct ≡ sweep_all laws rs pc.direct
  unfolding update_cache_with_added_relations purge_indirect sweep_all
  added-sweeps now [] pc = refl
  added-sweeps now (r ∷ rs) pc = direct-added laws now (r ∷ rs) (purge_indirect pc)

  pub deleted-sweeps :
      (rs : List Relation) (pc : ProjectCache x)
      → (update_cache_with_deleted_relations rs pc).direct ≡ sweep_all laws rs pc.direct
  unfolding update_cache_with_deleted_relations purge_indirect sweep_all
  deleted-sweeps [] pc = refl
  deleted-sweeps (r ∷ rs) pc = direct-deleted laws (r ∷ rs) (purge_indirect pc)

  pub added-Trace :
      (now : ℕ) (rs : List Relation) (pc : ProjectCache x)
      → Trace pc.direct (update_cache_with_added_relations now rs pc).direct
  added-Trace now rs pc =
      subst (Trace pc.direct) (sym (added-sweeps now rs pc)) (sweep_all-Trace rs pc.direct)

  pub deleted-Trace :
      (rs : List Relation) (pc : ProjectCache x)
      → Trace pc.direct (update_cache_with_deleted_relations rs pc).direct
  deleted-Trace rs pc =
      subst (Trace pc.direct) (sym (deleted-sweeps rs pc)) (sweep_all-Trace rs pc.direct)

  store_grant-Trace :
      (c : Check) (o : Option CachedGrant) (pc : ProjectCache x)
      → Trace pc.direct (store_grant c o pc).direct
  unfolding store_grant add_indirect_relation
  store_grant-Trace c none pc = aged refl refl
  store_grant-Trace c (some g) pc = elim (Bool-cases c.info.direct) [
    | inl e ↦ rw e (stored c.relation g)
    | inr e ↦ rw e (aged refl refl)
  ]

  pub checked-Trace :
      (cs : List Check) (pc : ProjectCache x)
      → Trace pc.direct (update_cache_with_checks cs pc).direct
  unfolding update_cache_with_checks store_check
  checked-Trace [] pc = aged refl refl
  checked-Trace (c ∷ cs) pc =
      and_then (store_grant-Trace c (grant_of c pc) pc) (checked-Trace cs (store_check c pc))

  -- A write leaves the conditions and the time that they are given.
  pub added-conditions :
      (now : ℕ) (rs : List Relation) (pc : ProjectCache x)
      → ((update_cache_with_added_relations now rs pc).compiled ≡ pc.compiled)
        × ((update_cache_with_added_relations now rs pc).cel_timeout ≡ pc.cel_timeout)
  unfolding update_cache_with_added_relations purge_indirect added_loop sweep_relation
  added-conditions now [] pc = (refl, refl)
  added-conditions now (r ∷ rs) pc = loop (r ∷ rs) (purge_indirect pc)
    where
      loop :
          (rs : List Relation) (pc : ProjectCache x)
          → ((added_loop now rs pc).compiled ≡ pc.compiled)
            × ((added_loop now rs pc).cel_timeout ≡ pc.cel_timeout)
      loop [] pc = (refl, refl)
      loop (r ∷ rs) pc =
          let swept = sweep_relation r pc in
          let frame = (add_to_lookup_cache-frame now r swept).same in
          let (c, t) = loop rs (add_to_lookup_cache now r swept) in
          (c ∙ ap (λ s. s.compiled) frame, t ∙ ap (λ s. s.cel_timeout) frame)

  pub deleted-conditions :
      (rs : List Relation) (pc : ProjectCache x)
      → ((update_cache_with_deleted_relations rs pc).compiled ≡ pc.compiled)
        × ((update_cache_with_deleted_relations rs pc).cel_timeout ≡ pc.cel_timeout)
  unfolding update_cache_with_deleted_relations purge_indirect deleted_loop sweep_relation
  deleted-conditions [] pc = (refl, refl)
  deleted-conditions (r ∷ rs) pc = loop (r ∷ rs) (purge_indirect pc)
    where
      loop :
          (rs : List Relation) (pc : ProjectCache x)
          → ((deleted_loop rs pc).compiled ≡ pc.compiled)
            × ((deleted_loop rs pc).cel_timeout ≡ pc.cel_timeout)
      loop [] pc = (refl, refl)
      loop (r ∷ rs) pc = loop rs (sweep_relation r pc)
