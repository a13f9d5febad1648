-- ===== src/Services/Check.antt =====
-- `Check`, `ensureSchemaLoaded`, `hasCacheableConditional` and `recordMetric`.
pub mod Loop
pub mod Hits
pub mod Repeat
pub mod Indexing
pub mod Merge
use authzcache.Base.{
  ℕ, suc, ◌-◌, ◌/◌, Bool, true, false, not, ◌&&◌, ◌||◌, List, [], ◌∷◌, Option, none, some, Text,
  nat_eq, is_empty, length, get_elem?, any, if◌then◌else◌, ◌>>=◌,
}
use authzcache.Base.Map.{Map, lookup}
use authzcache.Sdk.{Relation, Check, Schema, GoError}
use authzcache.Cel.{RequestContext}
use authzcache.Cache.{Externals, ProjectCache, millisecond}
use authzcache.Cache.Checks.{Checked, check_relations}
use authzcache.Cache.Schemas.{get_schema, ensure_schema_loaded}
use authzcache.Cache.Updates.{update_cache_with_checks}
use authzcache.Metrics.{Collector, ApiName, CallMetrics, record_metrics}
use authzcache.Services.Backend.{
  Reply, replied, failed, Response, ok, error, panic, Backend, Session,
}

-- a conditional check that the cache could keep if the conditions were compiled
is_cacheable_conditional : Check → Bool
is_cacheable_conditional c =
    c.info.conditional
    && not c.info.fact_used
    && is_empty c.info.missing_context
    && is_empty c.info.conditional_err
    && (not (is_empty c.info.true_conditions) || not (is_empty c.info.false_conditions))

pub has_cacheable_conditional : List Check → Bool
unfolding is_cacheable_conditional
has_cacheable_conditional checks = any is_cacheable_conditional checks

-- The loop that merges: index `i` of the relation, index `j` of the next SDK check. `none` is the
-- panic of `sdkChecks[j]`.
pub merge : ℕ → ℕ → List Relation → Map ℕ Check → List Check → Option (List Check)
merge i j [] index_to_check sdk_checks = some []
merge i j (r ∷ rs) index_to_check sdk_checks = elim (lookup i index_to_check) [
  | some c ↦ do rest ← merge (suc i) j rs index_to_check sdk_checks; some (c ∷ rest)
  | none ↦ do
    c ← get_elem? sdk_checks j
    rest ← merge (suc i) (suc j) rs index_to_check sdk_checks
    some (c ∷ rest)
]

-- `schema != nil && schema.Version != ""`
has_version : Option Schema → Bool
has_version none = false
has_version (some s) = not (is_empty s.version)

module _ {x : Externals} (b : Backend x) where
  pub record_on :
      x.cel.Context → ApiName → Bool → ℕ → ℕ → ℕ → ℕ → Option Collector → Session x b → Session x b
  record_on ctx api hit candidates filtered size start none s = s
  record_on ctx api hit candidates filtered size start (some collector) s =
      let (now, w) = b.read_clock s.world in
      record s {
        collector = some (
            record_metrics (b.project_id ctx) api
              (record {
                cache_hit = hit;
                candidates_count = candidates;
                filtered_count = filtered;
                result_size = size;
                duration_ms = (now - start) / millisecond;
              })
              collector);
        world = w;
      }

  pub record_metric : x.cel.Context → ApiName → Bool → ℕ → ℕ → ℕ → ℕ → Session x b → Session x b
  unfolding record_on
  record_metric ctx api hit candidates filtered size start s =
      record_on ctx api hit candidates filtered size start s.collector s

  -- an error is only logged
  take_schema : Reply (Option Schema) → Session x b → Session x b
  take_schema (failed e) s = s
  take_schema (replied schema) s = record s { cache = ensure_schema_loaded schema s.cache }

  pub load_schema_if_missing : x.cel.Context → b.Client → Session x b → Session x b
  unfolding take_schema has_version
  load_schema_if_missing ctx client s =
      if has_version (get_schema s.cache)
      then s
      else let (reply, w) = b.load_schema client ctx s.world in
        take_schema reply (record s { world = w })

  -- the checks of the SDK are cached, with the schema if a conditional one asks for it
  pub store_sdk_checks : x.cel.Context → b.Client → List Check → Session x b → Session x b
  unfolding load_schema_if_missing
  store_sdk_checks ctx client sdk_checks s =
      let loaded =
        (if has_cacheable_conditional sdk_checks then load_schema_if_missing ctx client s else s) in
      record loaded { cache = update_cache_with_checks sdk_checks loaded.cache }

  respond_merged :
      x.cel.Context
      → ℕ
      → ℕ
      → Option (List Check)
      → Session x b
      → Response (List Check) × Session x b
  respond_merged ctx start sent none s = (panic, s)
  respond_merged ctx start sent (some result) s =
      (ok result, record_metric ctx ApiName.check false sent 0 (length result) start s)

  -- after `CheckWithContext`
  take_checks :
      x.cel.Context
      → b.Client
      → ℕ
      → List Relation
      → Checked
      → Reply (List Check)
      → Session x b
      → Response (List Check) × Session x b
  unfolding respond_merged
  take_checks ctx client start relations checked (failed e) s = (error e, s)
  take_checks ctx client start relations checked (replied sdk_checks) s =
      respond_merged ctx start (length checked.unchecked)
        (merge 0 0 relations checked.index_to_check sdk_checks)
        (store_sdk_checks ctx client sdk_checks s)

  -- after `CheckRelations`: the relations that the cache does not answer go to the SDK
  complete :
      x.cel.Context
      → b.Client
      → ℕ
      → List Relation
      → RequestContext x.cel
      → Checked
      → List Relation
      → Session x b
      → Response (List Check) × Session x b
  unfolding take_checks
  complete ctx client start relations request checked [] s =
      (ok checked.checks, record_metric ctx ApiName.check true 0 0 (length checked.checks) start s)
  complete ctx client start relations request checked (u ∷ us) s =
      let (reply, w) = b.check_with_context client ctx (u ∷ us) request s.world in
      take_checks ctx client start relations checked reply (record s { world = w })

  -- `Check`, once the time is read and the project is found
  pub check_since :
      x.cel.Context
      → b.Client
      → List Relation
      → RequestContext x.cel
      → ℕ
      → Session x b
      → Response (List Check) × Session x b
  unfolding complete
  check_since ctx client relations request start s =
      let (checked, pc) = check_relations ctx request relations s.cache in
      complete ctx client start relations request checked checked.unchecked
        (record s { cache = pc })

  -- `Check` on a project that is there: finding it reads and changes nothing
  pub check :
      x.cel.Context
      → b.Client
      → List Relation
      → RequestContext x.cel
      → Session x b
      → Response (List Check) × Session x b
  unfolding check_since
  check ctx client relations request s =
      let (start, w) = b.read_clock s.world in
      check_since ctx client relations request start (record s { world = w })
