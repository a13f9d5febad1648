-- ===== src/Services/Projects.antt =====
-- The projects of the service: `getOrCreateProjectCache`, the writes, and each method on its project.
pub mod Writes
pub mod Reuse
pub mod Found
pub mod Unknown
pub mod Requests
use authzcache.Base.{ℕ, List, [], ◌∷◌, Option, none, some, Text, text_eq}
use authzcache.Base.Map.{Map, lookup, insert}
use authzcache.Sdk.{Relation, Check, Schema, AuthzRelation, GoError, other_error}
use authzcache.Cel.{RequestContext}
use authzcache.Cache.{Externals, ProjectCache, Settings, new_project_authz_cache}
use authzcache.Cache.Schemas.{update_cache_with_schema}
use authzcache.Cache.Updates.{
  update_cache_with_added_relations, update_cache_with_deleted_relations,
}
use authzcache.Metrics.{Collector}
use authzcache.Services.Backend.{
  Reply, replied, failed, Response, ok, error, panic, Backend, Session,
}
use authzcache.Services.Check.{check_since}
use authzcache.Services.Access.{who_can_access, what_can_target_access}

-- the schema that is saved has the DSL only
pub saved_schema : Text → Schema
saved_schema dsl = record { dsl = dsl; version = []; conditions = [] }

module _ {x : Externals} (b : Backend x) where
  pub record Project : Type 0 where
    pub cache : ProjectCache x
    pub client : b.Client

  -- authzCache: the map holds pointers to the caches, so what a method does to its project's cache
  -- is written back
  pub record Service : Type 0 where
    pub settings : Settings
    pub projects : Map Text Project
    pub collector : Option Collector
    pub world : b.World

  -- `projectCacheCreator` and `Store`; the text of the constructor's error is not kept
  unfoldable pub store_project :
      Text → b.Client → Option (ProjectCache x) → Service → Reply Project × Service
  store_project id client none s = (failed (other_error []), s)
  store_project id client (some pc) s =
      let p : Project = record { cache = pc; client = client } in
      (replied p, record s { projects = insert id p s.projects })

  unfoldable pub create_project : Text → Reply b.Client → Service → Reply Project × Service
  unfolding store_project
  create_project id (failed e) s = (failed e, s)
  create_project id (replied client) s =
      let (now, w) = b.read_clock s.world in
      store_project id client (new_project_authz_cache x s.settings now) (record s { world = w })

  unfoldable pub load_project : Text → Option Project → Service → Reply Project × Service
  unfolding create_project
  load_project id (some p) s = (replied p, s)
  load_project id none s =
      let (reply, w) = b.new_client id s.world in create_project id reply (record s { world = w })

  unfoldable pub get_or_create_project_cache : x.cel.Context → Service → Reply Project × Service
  unfolding load_project
  get_or_create_project_cache ctx s =
      let id = b.project_id ctx in load_project id (lookup id s.projects) s

  -- a method's body on its project: the cache, the collector and the world it leaves
  unfoldable pub run_body :
      {A : Type 0}
      → Text
      → (b.Client → Session x b → Response A × Session x b)
      → Reply Project × Service
      → Response A × Service
  run_body id body (failed e, s) = (error e, s)
  run_body id body (replied p, s) =
      let (response, after) =
        body p.client (record { cache = p.cache; collector = s.collector; world = s.world }) in
      (
        response,
        record s {
          projects = insert id (record { cache = after.cache; client = p.client }) s.projects;
          collector = after.collector;
          world = after.world;
        },
      )

  unfoldable pub with_project :
      {A : Type 0}
      → x.cel.Context
      → (b.Client → Session x b → Response A × Session x b)
      → Service
      → Response A × Service
  unfolding run_body get_or_create_project_cache
  with_project ctx body s = run_body (b.project_id ctx) body (get_or_create_project_cache ctx s)

  -- a write: the remote first, the cache only if that succeeds
  unfoldable pub after_write :
      (ProjectCache x → ProjectCache x)
      → Reply (Unit {0}) × b.World
      → Session x b
      → Response (Unit {0}) × Session x b
  after_write update (failed e, w) s = (error e, record s { world = w })
  after_write update (replied u, w) s = (ok u, record s { cache = update s.cache; world = w })

  unfoldable pub saving :
      x.cel.Context → Text → b.Client → Session x b → Response (Unit {0}) × Session x b
  unfolding after_write saved_schema
  saving ctx dsl client t =
      after_write (update_cache_with_schema (some (saved_schema dsl)))
        (b.save_schema client ctx dsl t.world) t

  unfoldable pub create_fga_schema : x.cel.Context → Text → Service → Response (Unit {0}) × Service
  unfolding saving with_project
  create_fga_schema ctx dsl s = with_project ctx (saving ctx dsl) s

  -- `UpdateCacheWithAddedRelations` reads the clock
  unfoldable pub added_at :
      List Relation → Reply (Unit {0}) × b.World → Session x b → Response (Unit {0}) × Session x b
  unfolding after_write
  added_at rs (failed e, w) s = (error e, record s { world = w })
  added_at rs (replied u, w) s =
      let (now, w') = b.read_clock w in
      after_write (update_cache_with_added_relations now rs) (replied u, w') s

  unfoldable pub creating :
      x.cel.Context → List Relation → b.Client → Session x b → Response (Unit {0}) × Session x b
  unfolding added_at
  creating ctx rs client t = added_at rs (b.create_relations client ctx rs t.world) t

  unfoldable pub create_fga_relations :
      x.cel.Context → List Relation → Service → Response (Unit {0}) × Service
  unfolding creating with_project
  create_fga_relations ctx [] s = (ok tt, s)
  create_fga_relations ctx (r ∷ rs) s = with_project ctx (creating ctx (r ∷ rs)) s

  pub deleting :
      x.cel.Context → List Relation → b.Client → Session x b → Response (Unit {0}) × Session x b
  unfolding after_write
  deleting ctx rs client t =
      after_write (update_cache_with_deleted_relations rs)
        (b.delete_relations client ctx rs t.world) t

  pub delete_fga_relations : x.cel.Context → List Relation → Service → Response (Unit {0}) × Service
  unfolding deleting with_project
  delete_fga_relations ctx [] s = (ok tt, s)
  delete_fga_relations ctx (r ∷ rs) s = with_project ctx (deleting ctx (r ∷ rs)) s

  -- the time is read before the project is looked up
  pub check_method :
      x.cel.Context
      → List Relation
      → RequestContext x.cel
      → Service
      → Response (List Check) × Service
  unfolding with_project
  check_method ctx relations request s =
      let (start, w) = b.read_clock s.world in
      with_project ctx (λ client t. check_since b ctx client relations request start t)
        (record s { world = w })

  pub who_can_access_method :
      x.cel.Context
      → Text
      → Text
      → Text
      → RequestContext x.cel
      → Service
      → Response (List Text) × Service
  unfolding with_project
  who_can_access_method ctx resource relation_definition namespace request s =
      let (start, w) = b.read_clock s.world in
      with_project ctx
        (λ client t.
          who_can_access b ctx client resource relation_definition namespace request start t)
        (record s { world = w })

  pub what_can_target_access_method :
      x.cel.Context
      → Text
      → RequestContext x.cel
      → Service
      → Response (List AuthzRelation) × Service
  unfolding with_project
  what_can_target_access_method ctx target request s =
      let (start, w) = b.read_clock s.world in
      with_project ctx (λ client t. what_can_target_access b ctx client target request start t)
        (record s { world = w })
