-- ===== src/Services/Projects/Requests/Bodies.antt =====
-- The projects of the service when a method runs on one: what is cached stays findable by the sweeps.
use authzcache.Base.{
  ◌≡◌, refl, subst, Option, none, some, inl, inr, arith, Text, text_eq, ◌==◌, Bool-cases,
}
use authzcache.Base.Map.{Map, lookup, insert, lookup-insert}
use authzcache.Cache.{Externals, ExternalLaws, ProjectCache, new_project_authz_cache}
use authzcache.Cache.Updates.Invalidation.{Indexed}
use authzcache.Cache.History.{new-Indexed}
use authzcache.Services.Backend.{Reply, replied, failed, Response, Backend, Session}
use authzcache.Services.Projects.{
  Project, Service, store_project, create_project, load_project, get_or_create_project_cache,
  run_body, with_project,
}

module _ {x : Externals} (laws : ExternalLaws x) (b : Backend x) where
  -- Every cached direct grant of every project is one that the sweeps find.
  abbrev pub AllIndexed : Service b → Type 0
  AllIndexed s = (id : Text) (p : Project b) → lookup id s.projects ≡ some p → Indexed laws p.cache

  pub insert-AllIndexed :
      (id : Text) (p : Project b) (projects : Map Text (Project b)) (j : Text) (q : Project b)
      → Indexed laws p.cache
      → ((j : Text) (q : Project b) → lookup j projects ≡ some q → Indexed laws q.cache)
      → lookup j (insert id p projects) ≡ some q
      → Indexed laws q.cache
  insert-AllIndexed id p projects j q h all e = elim (Bool-cases (id == j)) [
    | inl same ↦
        let it : p ≡ q = ground (arith, lookup-insert id j p projects) in
        subst (λ (q : Project b). Indexed laws q.cache) it h
    | inr other ↦ all j q (ground (arith, lookup-insert id j p projects))
  ]

  -- what `getOrCreateProjectCache` gives
  FoundIndexed : Reply (Project b) × Service b → Type 0
  FoundIndexed (failed e, s) = AllIndexed s
  FoundIndexed (replied p, s) = Indexed laws p.cache × AllIndexed s

  store_project-Indexed :
      (id : Text) (client : b.Client) (made : Option (ProjectCache x)) (s : Service b)
      → ((pc : ProjectCache x) → made ≡ some pc → Indexed laws pc)
      → AllIndexed s
      → FoundIndexed (store_project b id client made s)
  unfolding store_project FoundIndexed
  store_project-Indexed id client none s h all = all
  store_project-Indexed id client (some pc) s h all =
      let p : Project b = record { cache = pc; client = client } in
      (h pc refl, λ j q e. insert-AllIndexed id p s.projects j q (h pc refl) all e)

  create_project-Indexed :
      (id : Text) (reply : Reply b.Client) (s : Service b)
      → AllIndexed s
      → FoundIndexed (create_project b id reply s)
  unfolding create_project FoundIndexed
  create_project-Indexed id (failed e) s all = all
  create_project-Indexed id (replied client) s all =
      let (now, w) = b.read_clock s.world in
      store_project-Indexed id client (new_project_authz_cache x s.settings now)
        (record s { world = w }) (λ pc made. new-Indexed laws s.settings now pc made) all

  load_project-Indexed :
      (id : Text) (found : Option (Project b)) (s : Service b)
      → lookup id s.projects ≡ found
      → AllIndexed s
      → FoundIndexed (load_project b id found s)
  unfolding load_project FoundIndexed
  load_project-Indexed id (some p) s e all = (all id p e, all)
  load_project-Indexed id none s e all =
      let (reply, w) = b.new_client id s.world in
      create_project-Indexed id reply (record s { world = w }) all

  run_body-AllIndexed :
      {A : Type 0} (id : Text) (body : b.Client → Session x b → Response A × Session x b)
      (out : Reply (Project b) × Service b)
      → ((client : b.Client) (t : Session x b)
          → Indexed laws t.cache
          → Indexed laws (body client t).1.cache)
      → FoundIndexed out
      → AllIndexed (run_body b id body out).1
  unfolding run_body FoundIndexed
  run_body-AllIndexed id body (failed e, s) keeps all = all
  run_body-AllIndexed id body (replied p, s) keeps (h, all) =
      let after =
        (body p.client (record { cache = p.cache; collector = s.collector; world = s.world })).1 in
      λ j q e.
        insert-AllIndexed id (record { cache = after.cache; client = p.client }) s.projects j q
          (keeps p.client (record { cache = p.cache; collector = s.collector; world = s.world }) h)
          all e

  pub with_project-AllIndexed :
      {A : Type 0} (ctx : x.cel.Context) (body : b.Client → Session x b → Response A × Session x b)
      (s : Service b)
      → ((client : b.Client) (t : Session x b)
          → Indexed laws t.cache
          → Indexed laws (body client t).1.cache)
      → AllIndexed s
      → AllIndexed (with_project b ctx body s).1
  unfolding with_project get_or_create_project_cache
  with_project-AllIndexed ctx body s keeps all =
      run_body-AllIndexed (b.project_id ctx) body (get_or_create_project_cache b ctx s) keeps
        (load_project-Indexed (b.project_id ctx) (lookup (b.project_id ctx) s.projects) s refl all)
