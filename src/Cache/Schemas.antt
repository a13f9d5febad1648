-- ===== src/Cache/Schemas.antt =====
-- `GetSchema`, `UpdateCacheWithSchema`, `EnsureSchemaLoaded`, `setSchema` and the purges.
pub mod Loaded
pub mod Purge
use authzcache.Base.{
  ℕ, ◌&&◌, List, [], ◌∷◌, Option, none, some, nat_eq, not, is_some, is_empty, if◌then◌else◌,
}
use authzcache.Base.Map.{Map, insert}
use authzcache.Sdk.{Schema, Condition}
use authzcache.Cel.{CelEngine, CompiledCondition, compile}
use authzcache.Direct.{purge_direct}
use authzcache.Cache.{Externals, ProjectCache}

module _ (cel : CelEngine) where
  -- the loop over the conditions: one that does not compile is skipped
  pub compile_all : List Condition → Map ℕ (CompiledCondition cel) → Map ℕ (CompiledCondition cel)
  compile_all [] compiled = compiled
  compile_all (c ∷ cs) compiled =
      compile_all cs
        (elim (compile cel c) [ none ↦ compiled | some program ↦ insert c.id program compiled ])

module _ (x : Externals) where
  -- `lookupCache.Purge`, if there is a lookup cache
  pub purge_lookup : Option x.lookups.State → Option x.lookups.State
  purge_lookup none = none
  purge_lookup (some s) = some (x.lookups.purge s).0

module _ {x : Externals} where
  pub get_schema : ProjectCache x → Option Schema
  get_schema pc = pc.schema

  unfoldable pub set_schema : Option Schema → ProjectCache x → ProjectCache x
  set_schema none pc = record pc { schema = none; compiled = []; loaded_version = [] }
  set_schema (some s) pc = record pc {
    schema = some s;
    compiled = compile_all x.cel s.conditions [];
    loaded_version = s.version;
  }

  unfoldable pub purge_lookups : ProjectCache x → ProjectCache x
  unfolding purge_lookup
  purge_lookups pc = record pc { lookup_cache = purge_lookup x pc.lookup_cache }

  unfoldable pub purge_relation_caches : ProjectCache x → ProjectCache x
  unfolding purge_lookups
  purge_relation_caches pc =
      purge_lookups
        (record pc { direct = purge_direct pc.direct; indirect = (x.grants.purge pc.indirect).0 })

  pub update_cache_with_schema : Option Schema → ProjectCache x → ProjectCache x
  update_cache_with_schema schema pc = purge_relation_caches (set_schema schema pc)

  pub ensure_schema_loaded : Option Schema → ProjectCache x → ProjectCache x
  ensure_schema_loaded schema pc =
      if is_some pc.schema && not (is_empty pc.loaded_version) then pc else set_schema schema pc

  -- `now` is read after the purge
  unfoldable pub purge_all_caches : ℕ → ProjectCache x → ProjectCache x
  unfolding set_schema purge_relation_caches
  purge_all_caches now pc =
      let purged = purge_relation_caches (set_schema none pc) in
      record purged { remote = record purged.remote { last_poll_time = now } }
