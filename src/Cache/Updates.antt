-- ===== src/Cache/Updates.antt =====
-- `UpdateCacheWithAddedRelations`, `UpdateCacheWithDeletedRelations` and `UpdateCacheWithChecks`.
pub mod Invalidation
pub mod Admission
pub mod Hits
pub mod Keeps
pub mod Trace
pub mod Visible
use authzcache.Base.{
  ℕ, Bool, true, false, not, ◌&&◌, ◌||◌, List, [], ◌∷◌, Option, none, some, Text, text_eq, nat_eq,
  ◌==◌, is_some, is_empty, if◌then◌else◌,
}
use authzcache.Base.Map.{lookup}
use authzcache.Sdk.{Relation, Check, CheckInfo}
use authzcache.Lru.{Lru}
use authzcache.Direct.{
  CachedGrant, ConditionalCert, key, add_direct_relation,
  remove_direct_relations_by_resource_and_target,
}
use authzcache.Cache.{Externals, ProjectCache}
use authzcache.Cache.Lookup.{add_to_lookup_cache}

-- the second `case`: the request did not settle the conditions
incomplete : CheckInfo → Bool
incomplete info = not (is_empty info.missing_context) || not (is_empty info.conditional_err)

module _ {x : Externals} where
  unfoldable pub purge_indirect : ProjectCache x → ProjectCache x
  purge_indirect pc = record pc { indirect = (x.grants.purge pc.indirect).0 }

  pub sweep_relation : Relation → ProjectCache x → ProjectCache x
  sweep_relation r pc = record pc {
    direct = remove_direct_relations_by_resource_and_target r pc.direct;
  }

  -- the loop of `UpdateCacheWithAddedRelations`
  pub added_loop : ℕ → List Relation → ProjectCache x → ProjectCache x
  unfolding sweep_relation
  added_loop now [] pc = pc
  added_loop now (r ∷ rs) pc = added_loop now rs (add_to_lookup_cache now r (sweep_relation r pc))

  pub update_cache_with_added_relations : ℕ → List Relation → ProjectCache x → ProjectCache x
  unfolding purge_indirect
  update_cache_with_added_relations now [] pc = pc
  update_cache_with_added_relations now (r ∷ rs) pc = added_loop now (r ∷ rs) (purge_indirect pc)

  -- the loop of `UpdateCacheWithDeletedRelations`
  pub deleted_loop : List Relation → ProjectCache x → ProjectCache x
  unfolding sweep_relation
  deleted_loop [] pc = pc
  deleted_loop (r ∷ rs) pc = deleted_loop rs (sweep_relation r pc)

  pub update_cache_with_deleted_relations : List Relation → ProjectCache x → ProjectCache x
  unfolding purge_indirect
  update_cache_with_deleted_relations [] pc = pc
  update_cache_with_deleted_relations (r ∷ rs) pc = deleted_loop (r ∷ rs) (purge_indirect pc)

  unfoldable pub add_indirect_relation : Relation → CachedGrant → ProjectCache x → ProjectCache x
  add_indirect_relation r grant pc = record pc {
    indirect = (x.grants.add pc.indirect (key r) grant).0;
  }

  pub has_all_compiled_conditions : ProjectCache x → List ℕ → Bool
  has_all_compiled_conditions pc [] = true
  has_all_compiled_conditions pc (id ∷ ids) =
      is_some (lookup id pc.compiled) && has_all_compiled_conditions pc ids

  -- the first `case` of the switch: the check does not fit the loaded schema
  schema_skew : CheckInfo → ProjectCache x → Bool
  unfolding has_all_compiled_conditions
  schema_skew info pc =
      not (info.schema_version == pc.loaded_version)
      || (is_empty info.true_conditions && is_empty info.false_conditions)
      || not (has_all_compiled_conditions pc info.true_conditions)
      || not (has_all_compiled_conditions pc info.false_conditions)

  -- the grant that the loop caches for a check, or nothing where it skips the check
  unfoldable pub grant_of : Check → ProjectCache x → Option CachedGrant
  unfolding schema_skew incomplete
  grant_of c pc =
      if c.info.fact_used
      then none
      else if c.info.conditional
      then if schema_skew c.info pc
        then none
        else if incomplete c.info
        then none
        else some (record {
          allowed = c.allowed;
          cond = some (record {
            true_conds = c.info.true_conditions;
            false_conds = c.info.false_conditions;
          });
        })
      else some (record { allowed = c.allowed; cond = none })

  -- the end of the loop's body: the grant goes to the cache of its kind
  unfoldable pub store_grant : Check → Option CachedGrant → ProjectCache x → ProjectCache x
  unfolding add_indirect_relation
  store_grant c none pc = pc
  store_grant c (some grant) pc =
      if c.info.direct
      then record pc { direct = add_direct_relation c.relation grant pc.direct }
      else add_indirect_relation c.relation grant pc

  unfoldable pub store_check : Check → ProjectCache x → ProjectCache x
  store_check c pc = store_grant c (grant_of c pc) pc

  unfoldable pub update_cache_with_checks : List Check → ProjectCache x → ProjectCache x
  unfolding store_check
  update_cache_with_checks [] pc = pc
  update_cache_with_checks (c ∷ cs) pc = update_cache_with_checks cs (store_check c pc)
