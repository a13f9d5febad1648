-- ===== src/Services/Projects/Requests/Apart.antt =====
-- A request of one project leaves every other project as it is.
use authzcache.Base.{
  ◌≡◌, refl, ◌∙◌, false, List, [], ◌∷◌, Option, none, some, arith, Text, text_eq, ◌==◌,
}
use authzcache.Base.Map.{Map, lookup, insert, lookup-insert}
use authzcache.Cache.{Externals, ProjectCache, new_project_authz_cache}
use authzcache.Cache.History.{Call, tick, timer, step}
use authzcache.Services.Backend.{Reply, replied, failed, Response, Backend, Session}
use authzcache.Services.Check.{check_since}
use authzcache.Services.Access.{who_can_access, what_can_target_access}
use authzcache.Services.Projects.{
  Project, Service, store_project, create_project, load_project, get_or_create_project_cache,
  run_body, with_project, saving, creating, deleting, create_fga_schema, create_fga_relations,
  delete_fga_relations, check_method, who_can_access_method, what_can_target_access_method,
}
use authzcache.Services.Projects.Requests.{
  Request, save, create, remove, ask, ask_who, ask_what, poll, fire, on_project, serve, serve_all,
}

module _ {x : Externals} (b : Backend x) where
  -- the project that a request is for
  pub project_of : Request b → Text
  project_of (save ctx dsl) = b.project_id ctx
  project_of (create ctx rs) = b.project_id ctx
  project_of (remove ctx rs) = b.project_id ctx
  project_of (ask ctx rs request) = b.project_id ctx
  project_of (ask_who ctx resource relation_definition namespace request) = b.project_id ctx
  project_of (ask_what ctx target request) = b.project_id ctx
  project_of (poll id remote now later) = id
  project_of (fire id now) = id

  -- none of the requests is for the project `j`
  unfoldable pub NoneFor : Text → List (Request b) → Type 0
  unfolding project_of
  NoneFor j [] = Unit {0}
  NoneFor j (r ∷ rs) = ((project_of r == j) ≡ false) × NoneFor j rs

module _ {x : Externals} (b : Backend x) (j : Text) where
  insert-other :
      (id : Text) (p : Project b) (projects : Map Text (Project b))
      → (id == j) ≡ false
      → lookup j (insert id p projects) ≡ lookup j projects
  insert-other id p projects e = ground (arith, lookup-insert id j p projects)

  store_project-other :
      (id : Text) (client : b.Client) (made : Option (ProjectCache x)) (s : Service b)
      → (id == j) ≡ false
      → lookup j (store_project b id client made s).1.projects ≡ lookup j s.projects
  unfolding store_project
  store_project-other id client none s e = refl
  store_project-other id client (some pc) s e =
      insert-other id (record { cache = pc; client = client }) s.projects e

  create_project-other :
      (id : Text) (reply : Reply b.Client) (s : Service b)
      → (id == j) ≡ false
      → lookup j (create_project b id reply s).1.projects ≡ lookup j s.projects
  unfolding create_project
  create_project-other id (failed e) s apart = refl
  create_project-other id (replied client) s apart =
      let (now, w) = b.read_clock s.world in
      store_project-other id client (new_project_authz_cache x s.settings now)
        (record s { world = w }) apart

  load_project-other :
      (id : Text) (found : Option (Project b)) (s : Service b)
      → (id == j) ≡ false
      → lookup j (load_project b id found s).1.projects ≡ lookup j s.projects
  unfolding load_project
  load_project-other id (some p) s e = refl
  load_project-other id none s e =
      let (reply, w) = b.new_client id s.world in
      create_project-other id reply (record s { world = w }) e

  run_body-other :
      {A : Type 0} (id : Text) (body : b.Client → Session x b → Response A × Session x b)
      (out : Reply (Project b) × Service b)
      → (id == j) ≡ false
      → lookup j (run_body b id body out).1.projects ≡ lookup j out.1.projects
  unfolding run_body
  run_body-other id body (failed e, s) apart = refl
  run_body-other id body (replied p, s) apart =
      let after =
        (body p.client (record { cache = p.cache; collector = s.collector; world = s.world })).1 in
      insert-other id (record { cache = after.cache; client = p.client }) s.projects apart

  with_project-other :
      {A : Type 0} (ctx : x.cel.Context) (body : b.Client → Session x b → Response A × Session x b)
      (s : Service b)
      → (b.project_id ctx == j) ≡ false
      → lookup j (with_project b ctx body s).1.projects ≡ lookup j s.projects
  unfolding with_project get_or_create_project_cache
  with_project-other ctx body s e =
      let id = b.project_id ctx in
      run_body-other id body (get_or_create_project_cache b ctx s) e
      ∙ load_project-other id (lookup id s.projects) s e

  on_project-other :
      (id : Text) (call : Call x) (found : Option (Project b)) (s : Service b)
      → (id == j) ≡ false
      → lookup j (on_project b id call found s).projects ≡ lookup j s.projects
  unfolding on_project
  on_project-other id call none s e = refl
  on_project-other id call (some p) s e =
      insert-other id (record p { cache = step x call p.cache }) s.projects e

  serve-other :
      (request : Request b) (s : Service b)
      → (project_of b request == j) ≡ false
      → lookup j (serve b request s).projects ≡ lookup j s.projects
  unfolding serve project_of create_fga_schema create_fga_relations delete_fga_relations
      check_method who_can_access_method what_can_target_access_method
  serve-other (save ctx dsl) s e = with_project-other ctx (saving b ctx dsl) s e
  serve-other (create ctx []) s e = refl
  serve-other (create ctx (r ∷ rs)) s e = with_project-other ctx (creating b ctx (r ∷ rs)) s e
  serve-other (remove ctx []) s e = refl
  serve-other (remove ctx (r ∷ rs)) s e = with_project-other ctx (deleting b ctx (r ∷ rs)) s e
  serve-other (ask ctx rs request) s e =
      let (start, w) = b.read_clock s.world in
      with_project-other ctx (λ client t. check_since b ctx client rs request start t)
        (record s { world = w }) e
  serve-other (ask_who ctx resource relation_definition namespace request) s e =
      let (start, w) = b.read_clock s.world in
      with_project-other ctx
        (λ client t.
          who_can_access b ctx client resource relation_definition namespace request start t)
        (record s { world = w }) e
  serve-other (ask_what ctx target request) s e =
      let (start, w) = b.read_clock s.world in
      with_project-other ctx
        (λ client t. what_can_target_access b ctx client target request start t)
        (record s { world = w }) e
  serve-other (poll id remote now later) s e =
      on_project-other id (tick remote now later) (lookup id s.projects) s e
  serve-other (fire id now) s e = on_project-other id (timer now) (lookup id s.projects) s e

  -- Requests, polls and timers for other projects, one after the other, leave a project as it is:
  -- its cache, with all that is cached and loaded in it, and its client are the same afterwards, and
  -- a project that the service did not have is not there afterwards either.
  pub projects_apart :
      (requests : List (Request b)) (s : Service b)
      → NoneFor b j requests
      → lookup j (serve_all b requests s).projects ≡ lookup j s.projects
  unfolding serve_all NoneFor
  projects_apart [] s none_for = refl
  projects_apart (r ∷ rs) s (apart, none_for) =
      projects_apart rs (serve b r s) none_for ∙ serve-other r s apart
