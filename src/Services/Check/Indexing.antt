-- ===== src/Services/Check/Indexing.antt =====
-- `Check` keeps every cached direct grant of its project findable by the sweeps.
use authzcache.Base.{
  ℕ, ◌≡◌, refl, sym, subst, Bool, List, [], ◌∷◌, Option, none, some, inl, inr, Bool-cases,
}
use authzcache.Sdk.{Relation, Check, Schema}
use authzcache.Cel.{RequestContext}
use authzcache.Cache.{Externals, ExternalLaws}
use authzcache.Cache.Schemas.{get_schema}
use authzcache.Cache.Checks.{Checked, check_relations}
use authzcache.Cache.Updates.Invalidation.{Indexed}
use authzcache.Cache.History.{check_relations-Indexed, ensure-Indexed}
use authzcache.Cache.Updates.Admission.{update_cache_with_checks-Indexed}
use authzcache.Metrics.{Collector, ApiName}
use authzcache.Services.Backend.{Reply, replied, failed, Backend, Session}
use authzcache.Services.Check.{
  has_cacheable_conditional, has_version, record_on, record_metric, take_schema,
  load_schema_if_missing, store_sdk_checks, respond_merged, take_checks, complete, check_since,
  check,
}

module _ {x : Externals} (laws : ExternalLaws x) (b : Backend x) (ctx : x.cel.Context) where
  pub record_on-cache :
      (api : ApiName) (hit : Bool) (candidates filtered size start : ℕ) (o : Option Collector)
      (s : Session x b)
      → (record_on b ctx api hit candidates filtered size start o s).cache ≡ s.cache
  unfolding record_on
  record_on-cache api hit candidates filtered size start none s = refl
  record_on-cache api hit candidates filtered size start (some collector) s = refl

  pub record_metric-Indexed :
      (api : ApiName) (hit : Bool) (candidates filtered size start : ℕ) (s : Session x b)
      → Indexed laws s.cache
      → Indexed laws (record_metric b ctx api hit candidates filtered size start s).cache
  unfolding record_metric
  record_metric-Indexed api hit candidates filtered size start s h =
      subst (Indexed laws)
        (sym (record_on-cache api hit candidates filtered size start s.collector s)) h

  take_schema-Indexed :
      (reply : Reply (Option Schema)) (s : Session x b)
      → Indexed laws s.cache
      → Indexed laws (take_schema b reply s).cache
  unfolding take_schema
  take_schema-Indexed (failed e) s h = h
  take_schema-Indexed (replied schema) s h = ensure-Indexed laws schema s.cache h

  load_schema_if_missing-Indexed :
      (client : b.Client) (s : Session x b)
      → Indexed laws s.cache
      → Indexed laws (load_schema_if_missing b ctx client s).cache
  unfolding load_schema_if_missing
  load_schema_if_missing-Indexed client s h = elim (Bool-cases (has_version (get_schema s.cache))) [
    | inl there ↦ rw there h
    | inr missing ↦
        let (reply, w) = b.load_schema client ctx s.world in
        rw missing (take_schema-Indexed reply (record s { world = w }) h)
  ]

  store_sdk_checks-Indexed :
      (client : b.Client) (cs : List Check) (s : Session x b)
      → Indexed laws s.cache
      → Indexed laws (store_sdk_checks b ctx client cs s).cache
  unfolding store_sdk_checks
  store_sdk_checks-Indexed client cs s h = elim (Bool-cases (has_cacheable_conditional cs)) [
    | inl asks ↦ rw asks (
        update_cache_with_checks-Indexed laws cs (load_schema_if_missing b ctx client s).cache
          (load_schema_if_missing-Indexed client s h))
    | inr plain ↦ rw plain (update_cache_with_checks-Indexed laws cs s.cache h)
  ]

  respond_merged-Indexed :
      (start sent : ℕ) (o : Option (List Check)) (s : Session x b)
      → Indexed laws s.cache
      → Indexed laws (respond_merged b ctx start sent o s).1.cache
  unfolding respond_merged
  respond_merged-Indexed start sent none s h = h
  respond_merged-Indexed start sent (some result) s h = record_metric-Indexed _ _ _ _ _ start s h

  take_checks-Indexed :
      (client : b.Client) (start : ℕ) (rs : List Relation) (checked : Checked)
      (reply : Reply (List Check)) (s : Session x b)
      → Indexed laws s.cache
      → Indexed laws (take_checks b ctx client start rs checked reply s).1.cache
  unfolding take_checks
  take_checks-Indexed client start rs checked (failed e) s h = h
  take_checks-Indexed client start rs checked (replied cs) s h =
      respond_merged-Indexed start _ _ (store_sdk_checks b ctx client cs s)
        (store_sdk_checks-Indexed client cs s h)

  complete-Indexed :
      (client : b.Client) (start : ℕ) (rs : List Relation) (request : RequestContext x.cel)
      (checked : Checked) (us : List Relation) (s : Session x b)
      → Indexed laws s.cache
      → Indexed laws (complete b ctx client start rs request checked us s).1.cache
  unfolding complete
  complete-Indexed client start rs request checked [] s h =
      record_metric-Indexed _ _ _ _ _ start s h
  complete-Indexed client start rs request checked (u ∷ us) s h =
      let (reply, w) = b.check_with_context client ctx (u ∷ us) request s.world in
      take_checks-Indexed client start rs checked reply (record s { world = w }) h

  -- `Check` keeps what is cached findable.
  pub check_since-Indexed :
      (client : b.Client) (rs : List Relation) (request : RequestContext x.cel) (start : ℕ)
      (s : Session x b)
      → Indexed laws s.cache
      → Indexed laws (check_since b ctx client rs request start s).1.cache
  unfolding check_since
  check_since-Indexed client rs request start s h =
      let (checked, pc) = check_relations ctx request rs s.cache in
      complete-Indexed client start rs request checked checked.unchecked (record s { cache = pc })
        (check_relations-Indexed laws ctx request rs s.cache h)

  pub check-Indexed :
      (client : b.Client) (rs : List Relation) (request : RequestContext x.cel) (s : Session x b)
      → Indexed laws s.cache
      → Indexed laws (check b ctx client rs request s).1.cache
  unfolding check
  check-Indexed client rs request s h =
      let (start, w) = b.read_clock s.world in
      check_since-Indexed client rs request start (record s { world = w }) h
