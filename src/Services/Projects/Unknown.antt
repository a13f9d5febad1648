-- ===== src/Services/Projects/Unknown.antt =====
-- A request without a project: the client that the service is started with refuses it.
use authzcache.Base.{◌≡◌, ap, ◌∙◌, List, [], ◌∷◌, Option, none, Text, text_eq}
use authzcache.Base.Map.{lookup}
use authzcache.Sdk.{Relation}
use authzcache.Cel.{RequestContext}
use authzcache.Config.{Environment}
use authzcache.Cache.{Externals}
use authzcache.Remote.{RemoteSdk, new_descope_client_with_project_id, empty_project_id}
use authzcache.Services.Backend.{Reply, failed, Response, error, Backend, Session}
use authzcache.Services.Check.{check_since}
use authzcache.Services.Access.{who_can_access, what_can_target_access}
use authzcache.Services.Projects.{
  Project, Service, create_project, load_project, get_or_create_project_cache, run_body,
  with_project, create_fga_schema, create_fga_relations, delete_fga_relations, check_method,
  who_can_access_method, what_can_target_access_method, saving, creating, deleting,
}

module _ {x : Externals} (b : Backend x) (env : Environment) (sdk : RemoteSdk b.Client b.World)
    (by_remote : (id : Text) (w : b.World)
      → b.new_client id w ≡ new_descope_client_with_project_id env sdk id w)
    (ctx : x.cel.Context) (without : b.project_id ctx ≡ []) where
  get_or_create-unknown :
      (s : Service b)
      → lookup [] s.projects ≡ none
      → get_or_create_project_cache b ctx s ≡ (failed (sdk.unknown_project empty_project_id), s)
  unfolding get_or_create_project_cache load_project create_project
      new_descope_client_with_project_id
  get_or_create-unknown s new =
      ap (λ id. load_project b id (lookup id s.projects) s) without
      ∙ ap {A = Option (Project b)} (λ o. load_project b [] o s) new
      ∙ ap {A = Reply b.Client × b.World} {B = Reply (Project b) × Service b}
          (λ c. create_project b [] c.0 (record s { world = c.1 })) (by_remote [] s.world)

  with_project-unknown :
      {A : Type 0} (body : b.Client → Session x b → Response A × Session x b) (s : Service b)
      → lookup [] s.projects ≡ none
      → with_project b ctx body s ≡ (error (sdk.unknown_project empty_project_id), s)
  unfolding with_project run_body
  with_project-unknown {A} body s new =
      ap {A = Reply (Project b) × Service b} {B = Response A × Service b}
        (λ found. run_body b (b.project_id ctx) body found) (get_or_create-unknown s new)

  -- the service after the clock was read
  abbrev pub timed : Service b → Service b
  timed s = record s { world = (b.read_clock s.world).1 }

  -- When the service makes its clients as the program does, and has nothing under the empty project
  -- id, then a request whose context has no project id is refused with the library's error for an
  -- unknown project by every method, with no call of the backend and nothing of the service
  -- changed; only the clock is read, once, by `Check` and the two lookups. A write of no relations
  -- is done at once instead, and is not in this.
  pub unknown_project_refused :
      (s : Service b)
      → lookup [] s.projects ≡ none
      → (dsl resource relation_definition namespace target : Text) (request : RequestContext x.cel)
        (r : Relation) (rs : List Relation)
      → (create_fga_schema b ctx dsl s ≡ (error (sdk.unknown_project empty_project_id), s))
        × (create_fga_relations b ctx (r ∷ rs) s
            ≡ (error (sdk.unknown_project empty_project_id), s))
        × (delete_fga_relations b ctx (r ∷ rs) s
            ≡ (error (sdk.unknown_project empty_project_id), s))
        × (check_method b ctx rs request s
            ≡ (error (sdk.unknown_project empty_project_id), timed s))
        × (who_can_access_method b ctx resource relation_definition namespace request s
            ≡ (error (sdk.unknown_project empty_project_id), timed s))
        × (what_can_target_access_method b ctx target request s
            ≡ (error (sdk.unknown_project empty_project_id), timed s))
  unfolding create_fga_schema create_fga_relations delete_fga_relations check_method
      who_can_access_method what_can_target_access_method
  unknown_project_refused s new dsl resource relation_definition namespace target request r rs =
      let start = (b.read_clock s.world).0 in
      (
        with_project-unknown (saving b ctx dsl) s new,
        with_project-unknown (creating b ctx (r ∷ rs)) s new,
        with_project-unknown (deleting b ctx (r ∷ rs)) s new,
        with_project-unknown (λ client t. check_since b ctx client rs request start t) (timed s)
            new,
        with_project-unknown
            (λ client t.
              who_can_access b ctx client resource relation_definition namespace request start t)
            (timed s) new,
        with_project-unknown
            (λ client t. what_can_target_access b ctx client target request start t) (timed s) new,
      )
