-- ===== src/Services/Projects/Writes.antt =====
-- What a write through the service leaves: a refused one leaves the project's cache as it was, and
-- after one that succeeds no relation it touches is answered from the cache.
use authzcache.Base.{ℕ, ◌≡◌, refl, sym, ap, subst, List, [], ◌∷◌, Option, none, some, Text, text_eq}
use authzcache.Base.Map.{lookup, lookup-insert_self}
use authzcache.Sdk.{Relation}
use authzcache.Cel.{RequestContext}
use authzcache.Direct.Sweep.{IsUnambiguous}
use authzcache.Cache.{Externals, ExternalLaws, ProjectCache}
use authzcache.Cache.Checks.Gather.{answer}
use authzcache.Cache.Updates.{
  update_cache_with_added_relations, update_cache_with_deleted_relations,
}
use authzcache.Cache.Updates.Invalidation.{
  Touches, Indexed, Forgotten, added-Forgotten, deleted-Forgotten,
}
use authzcache.Cache.History.{answer_of_Forgotten}
use authzcache.Services.Backend.{Reply, replied, failed, Response, ok, error, Backend, Session}
use authzcache.Direct.{key}
use authzcache.Cache.Schemas.{update_cache_with_schema}
use authzcache.Cache.Schemas.Purge.{update_cache_with_schema-IsPurged}
use authzcache.Services.Projects.{
  create_fga_schema, saving, saved_schema, Project, Service, load_project,
  get_or_create_project_cache, run_body, with_project, after_write, added_at, creating, deleting,
  create_fga_relations, delete_fga_relations,
}

module _ {x : Externals} (laws : ExternalLaws x) (b : Backend x) where
  -- A write that the backend accepts is answered without error and leaves no answer for `q`, for any
  -- request; one that it refuses is answered with its error and leaves the project as it was.
  abbrev pub Outcome :
      Project b → Relation → Reply (Unit {0}) → Project b → Response (Unit {0}) → Type 0
  Outcome p q (replied u) left response =
      (response ≡ ok u)
      × ((ctx : x.cel.Context) (request : RequestContext x.cel)
          → answer laws ctx request left.cache q ≡ none)
  Outcome p q (failed e) left response = (response ≡ error e) × (left ≡ p)

  -- What a write of relations that touch `q` leaves of the project `id`, which was `p`, for what the
  -- backend replied to it.
  pub record Settled (id : Text) (p : Project b) (q : Relation) (reply : Reply (Unit {0}))
      (out : Response (Unit {0}) × Service b) : Type 0 where
    pub left : Project b
    pub there : lookup id out.1.projects ≡ some left
    pub outcome : Outcome p q reply left out.0

  after_write-Settled :
      (id : Text) (p : Project b) (q : Relation) (update : ProjectCache x → ProjectCache x)
      (call : Reply (Unit {0}) × b.World) (s : Service b)
      → Forgotten laws q (update p.cache)
      → Settled id p q call.0
          (run_body b id (λ client t. after_write b update call t) (replied p, s))
  unfolding run_body after_write
  after_write-Settled id p q update (failed e, w) s h = record {
    left = p;
    there = lookup-insert_self id p s.projects;
    outcome = (refl, refl);
  }
  after_write-Settled id p q update (replied u, w) s h = record {
    left = record p { cache = update p.cache };
    there = lookup-insert_self id (record p { cache = update p.cache }) s.projects;
    outcome = (refl, λ ctx request. answer_of_Forgotten laws ctx request q (update p.cache) h);
  }

  added_at-Settled :
      (id : Text) (p : Project b) (q : Relation) (rs : List Relation)
      (call : Reply (Unit {0}) × b.World) (s : Service b)
      → ((now : ℕ) → Forgotten laws q (update_cache_with_added_relations now rs p.cache))
      → Settled id p q call.0 (run_body b id (λ client t. added_at b rs call t) (replied p, s))
  unfolding run_body added_at after_write
  added_at-Settled id p q rs (failed e, w) s h = record {
    left = p;
    there = lookup-insert_self id p s.projects;
    outcome = (refl, refl);
  }
  added_at-Settled id p q rs (replied u, w) s h =
      let (now, w') = b.read_clock w in
      after_write-Settled id p q (update_cache_with_added_relations now rs) (replied u, w') s
        (h now)

  with_project-found :
      {A : Type 0} (ctx : x.cel.Context) (body : b.Client → Session x b → Response A × Session x b)
      (p : Project b) (s : Service b)
      → lookup (b.project_id ctx) s.projects ≡ some p
      → with_project b ctx body s ≡ run_body b (b.project_id ctx) body (replied p, s)
  unfolding with_project get_or_create_project_cache load_project
  with_project-found ctx body p s e =
      ap {A = Option (Project b)}
        (λ o. run_body b (b.project_id ctx) body (load_project b (b.project_id ctx) o s)) e

  -- A creation or a deletion of relations on a project that the service has, whose cached direct
  -- grants are all findable: if the backend accepts it, then it returns without error and no
  -- relation with an unambiguous key that shares its resource or its target with a written one is
  -- answered from the project's cache afterwards, for any request; if the backend refuses it, the
  -- backend's error is returned and the project is as it was.
  pub writes-Settled :
      (ctx : x.cel.Context) (p : Project b) (s : Service b) (rs : List Relation) (q : Relation)
      → lookup (b.project_id ctx) s.projects ≡ some p
      → Indexed laws p.cache
      → IsUnambiguous q
      → Touches rs q
      → Settled
          (b.project_id ctx)
          p
          q
          (b.create_relations p.client ctx rs s.world).0
          (create_fga_relations b ctx rs s)
        × Settled
            (b.project_id ctx)
            p
            q
            (b.delete_relations p.client ctx rs s.world).0
            (delete_fga_relations b ctx rs s)
  unfolding create_fga_relations delete_fga_relations added_at creating deleting run_body
      after_write
  writes-Settled ctx p s [] q e h u t = absurd t
  writes-Settled ctx p s (r ∷ rs) q e h u t =
      let id = b.project_id ctx in
      let created = b.create_relations p.client ctx (r ∷ rs) s.world in
      let deleted = b.delete_relations p.client ctx (r ∷ rs) s.world in
      (
        subst {A = Response (Unit {0}) × Service b} (Settled id p q created.0)
            (sym (with_project-found ctx (creating b ctx (r ∷ rs)) p s e))
            (added_at-Settled id p q (r ∷ rs) created s
              (λ now. added-Forgotten laws now q (r ∷ rs) p.cache h u t)),
        subst {A = Response (Unit {0}) × Service b} (Settled id p q deleted.0)
            (sym (with_project-found ctx (deleting b ctx (r ∷ rs)) p s e))
            (after_write-Settled id p q (update_cache_with_deleted_relations (r ∷ rs)) deleted s
              (deleted-Forgotten laws q (r ∷ rs) p.cache h u t)),
      )

  -- Saving a schema through the service on a project that it has: if the backend accepts the schema,
  -- the method returns without error and no relation at all is answered from the project's cache
  -- afterwards, for any request; if the backend refuses it, the backend's error is returned and the
  -- project is as it was.
  pub schema_save-Settled :
      (ctx : x.cel.Context) (dsl : Text) (p : Project b) (s : Service b) (q : Relation)
      → lookup (b.project_id ctx) s.projects ≡ some p
      → Settled
          (b.project_id ctx)
          p
          q
          (b.save_schema p.client ctx dsl s.world).0
          (create_fga_schema b ctx dsl s)
  unfolding create_fga_schema saving run_body after_write
  schema_save-Settled ctx dsl p s q e =
      let purged = (update_cache_with_schema-IsPurged laws (some (saved_schema dsl)) p.cache).0 in
      subst {A = Response (Unit {0}) × Service b}
        (Settled (b.project_id ctx) p q (b.save_schema p.client ctx dsl s.world).0)
        (sym (with_project-found ctx (saving b ctx dsl) p s e))
        (after_write-Settled (b.project_id ctx) p q
          (update_cache_with_schema (some (saved_schema dsl)))
          (b.save_schema p.client ctx dsl s.world) s
          (purged.no_direct (key q), purged.no_indirect (key q)))
