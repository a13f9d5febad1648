-- ===== src/Services/Projects/Requests/Written.antt =====
-- No request leaves a cached direct grant that the sweeps miss, so that a write after any requests
-- takes away what it touches.
use authzcache.Base.{◌≡◌, refl, subst, List, [], ◌∷◌, Option, none, some, arith, Text, text_eq}
use authzcache.Base.Map.{lookup}
use authzcache.Sdk.{Relation}
use authzcache.Direct.Sweep.{IsUnambiguous}
use authzcache.Cache.{Externals, ExternalLaws, ProjectCache}
use authzcache.Cache.Updates.{update_cache_with_deleted_relations}
use authzcache.Cache.Updates.Invalidation.{Touches, Indexed}
use authzcache.Cache.Schemas.{update_cache_with_schema}
use authzcache.Cache.History.{Call, tick, timer, schema_updated, added, deleted, step, step-Indexed}
use authzcache.Services.Backend.{Reply, replied, failed, Backend, Session}
use authzcache.Services.Check.{check_since}
use authzcache.Services.Check.Indexing.{check_since-Indexed}
use authzcache.Services.Access.{who_can_access, what_can_target_access}
use authzcache.Services.Access.Indexing.{who_can_access-Indexed, what_can_target_access-Indexed}
use authzcache.Services.Projects.{
  Project, Service, after_write, added_at, saving, creating, deleting, saved_schema,
  create_fga_schema, create_fga_relations, delete_fga_relations, check_method,
  who_can_access_method, what_can_target_access_method,
}
use authzcache.Services.Projects.Writes.{Settled, writes-Settled}
use authzcache.Services.Projects.Requests.{
  Request, save, create, remove, ask, ask_who, ask_what, poll, fire, on_project, serve, serve_all,
}
use authzcache.Services.Projects.Requests.Bodies.{
  AllIndexed, insert-AllIndexed, with_project-AllIndexed,
}

module _ {x : Externals} (laws : ExternalLaws x) (b : Backend x) where
  on_project-AllIndexed :
      (id : Text) (call : Call x) (found : Option (Project b)) (s : Service b)
      → lookup id s.projects ≡ found
      → AllIndexed laws b s
      → AllIndexed laws b (on_project b id call found s)
  unfolding on_project
  on_project-AllIndexed id call none s e all = all
  on_project-AllIndexed id call (some p) s e all = λ j q hit.
      insert-AllIndexed laws b id (record p { cache = step x call p.cache }) s.projects j q
        (step-Indexed laws call p.cache (all id p e)) all hit

  after_write-Indexed :
      (update : ProjectCache x → ProjectCache x) (reply : Reply (Unit {0}) × b.World)
      (t : Session x b)
      → Indexed laws (update t.cache)
      → Indexed laws t.cache
      → Indexed laws (after_write b update reply t).1.cache
  unfolding after_write
  after_write-Indexed update (failed e, w) t h g = g
  after_write-Indexed update (replied u, w) t h g = h

  added_at-Indexed :
      (rs : List Relation) (reply : Reply (Unit {0}) × b.World) (t : Session x b)
      → Indexed laws t.cache
      → Indexed laws (added_at b rs reply t).1.cache
  unfolding added_at after_write step
  added_at-Indexed rs (failed e, w) t h = h
  added_at-Indexed rs (replied u, w) t h =
      let (now, w') = b.read_clock w in step-Indexed laws (added now rs) t.cache h

  serve-AllIndexed :
      (request : Request b) (s : Service b)
      → AllIndexed laws b s
      → AllIndexed laws b (serve b request s)
  unfolding serve create_fga_schema create_fga_relations delete_fga_relations check_method
      who_can_access_method what_can_target_access_method saving creating deleting step
  serve-AllIndexed (save ctx dsl) s all =
      with_project-AllIndexed laws b ctx (saving b ctx dsl) s
        (λ client t h.
          after_write-Indexed (update_cache_with_schema (some (saved_schema dsl)))
            (b.save_schema client ctx dsl t.world) t
            (step-Indexed laws (schema_updated (some (saved_schema dsl))) t.cache h) h)
        all
  serve-AllIndexed (create ctx []) s all = all
  serve-AllIndexed (create ctx (r ∷ rs)) s all =
      with_project-AllIndexed laws b ctx (creating b ctx (r ∷ rs)) s
        (λ client t h.
          added_at-Indexed (r ∷ rs) (b.create_relations client ctx (r ∷ rs) t.world) t h)
        all
  serve-AllIndexed (remove ctx []) s all = all
  serve-AllIndexed (remove ctx (r ∷ rs)) s all =
      with_project-AllIndexed laws b ctx (deleting b ctx (r ∷ rs)) s
        (λ client t h.
          after_write-Indexed (update_cache_with_deleted_relations (r ∷ rs))
            (b.delete_relations client ctx (r ∷ rs) t.world) t
            (step-Indexed laws (deleted (r ∷ rs)) t.cache h) h)
        all
  serve-AllIndexed (ask ctx rs request) s all =
      let (start, w) = b.read_clock s.world in
      with_project-AllIndexed laws b ctx (λ client t. check_since b ctx client rs request start t)
        (record s { world = w })
        (λ client t h. check_since-Indexed laws b ctx client rs request start t h) all
  serve-AllIndexed (ask_who ctx resource relation_definition namespace request) s all =
      let (start, w) = b.read_clock s.world in
      with_project-AllIndexed laws b ctx
        (λ client t.
          who_can_access b ctx client resource relation_definition namespace request start t)
        (record s { world = w })
        (λ client t h.
          who_can_access-Indexed laws b ctx client request resource relation_definition namespace
            start t h)
        all
  serve-AllIndexed (ask_what ctx target request) s all =
      let (start, w) = b.read_clock s.world in
      with_project-AllIndexed laws b ctx
        (λ client t. what_can_target_access b ctx client target request start t)
        (record s { world = w })
        (λ client t h. what_can_target_access-Indexed laws b ctx client request target start t h)
        all
  serve-AllIndexed (poll id remote now later) s all =
      on_project-AllIndexed id (tick remote now later) (lookup id s.projects) s refl all
  serve-AllIndexed (fire id now) s all =
      on_project-AllIndexed id (timer now) (lookup id s.projects) s refl all

  serve_all-AllIndexed :
      (requests : List (Request b)) (s : Service b)
      → AllIndexed laws b s
      → AllIndexed laws b (serve_all b requests s)
  unfolding serve_all
  serve_all-AllIndexed [] s all = all
  serve_all-AllIndexed (r ∷ rs) s all =
      serve_all-AllIndexed rs (serve b r s) (serve-AllIndexed r s all)

  no_projects-AllIndexed : (s : Service b) → s.projects ≡ [] → AllIndexed laws b s
  unfolding lookup
  no_projects-AllIndexed s e id p hit =
      absurd (none_lookup (subst (λ ps. lookup id ps ≡ some p) e hit))
    where
      none_lookup : none ≡ some p → ⊥
      none_lookup h = ground arith

  -- On a service that starts without projects, after any requests to it and any polls and timers
  -- that fire on its projects, one after the other, take a creation or a deletion of relations on a
  -- project that is there by then: if the backend accepts it, then it returns without error and no
  -- relation with an unambiguous key that shares its resource or its target with a written one is
  -- answered from the project's cache afterwards, for any request; if the backend refuses it, the
  -- backend's error is returned and the project is as it was.
  pub requests_then_write :
      (requests : List (Request b)) (s : Service b) (ctx : x.cel.Context) (p : Project b)
      (rs : List Relation) (q : Relation)
      → s.projects ≡ []
      → lookup (b.project_id ctx) (serve_all b requests s).projects ≡ some p
      → IsUnambiguous q
      → Touches rs q
      → Settled laws b
          (b.project_id ctx)
          p
          q
          (b.create_relations p.client ctx rs (serve_all b requests s).world).0
          (create_fga_relations b ctx rs (serve_all b requests s))
        × Settled laws b
            (b.project_id ctx)
            p
            q
            (b.delete_relations p.client ctx rs (serve_all b requests s).world).0
            (delete_fga_relations b ctx rs (serve_all b requests s))
  requests_then_write requests s ctx p rs q start there u t =
      writes-Settled laws b ctx p (serve_all b requests s) rs q there
        (serve_all-AllIndexed requests s (no_projects-AllIndexed s start) (b.project_id ctx) p
          there)
        u t
