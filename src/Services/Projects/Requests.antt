-- ===== src/Services/Projects/Requests.antt =====
-- Any requests on the service and any ticks of its pollers, one after the other.
pub mod Apart
pub mod Bodies
pub mod Written
use authzcache.Base.{ℕ, List, [], ◌∷◌, Option, none, some, Text, text_eq}
use authzcache.Base.Map.{lookup, insert}
use authzcache.Sdk.{Relation}
use authzcache.Cel.{RequestContext}
use authzcache.Cache.{Externals}
use authzcache.Cache.Polling.{Fetched}
use authzcache.Cache.History.{Call, tick, timer, step}
use authzcache.Services.Backend.{Backend}
use authzcache.Services.Projects.{
  Project, Service, create_fga_schema, create_fga_relations, delete_fga_relations, check_method,
  who_can_access_method, what_can_target_access_method,
}

module _ {x : Externals} (b : Backend x) where
  -- The methods of `AuthzCache`, and what the poller and the timer of a project call.
  pub data Request : Type 0 where
    save : x.cel.Context → Text → Request
    create : x.cel.Context → List Relation → Request
    remove : x.cel.Context → List Relation → Request
    ask : x.cel.Context → List Relation → RequestContext x.cel → Request
    ask_who : x.cel.Context → Text → Text → Text → RequestContext x.cel → Request
    ask_what : x.cel.Context → Text → RequestContext x.cel → Request
    poll : Text → (ℕ → Fetched) → ℕ → ℕ → Request
    fire : Text → ℕ → Request

  -- a step on the cache of a project, if there is one
  unfoldable pub on_project : Text → Call x → Option (Project b) → Service b → Service b
  on_project id call none s = s
  on_project id call (some p) s = record s {
    projects = insert id (record p { cache = step x call p.cache }) s.projects;
  }

  unfoldable pub serve : Request → Service b → Service b
  unfolding on_project
  serve (save ctx dsl) s = (create_fga_schema b ctx dsl s).1
  serve (create ctx rs) s = (create_fga_relations b ctx rs s).1
  serve (remove ctx rs) s = (delete_fga_relations b ctx rs s).1
  serve (ask ctx rs request) s = (check_method b ctx rs request s).1
  serve (ask_who ctx resource relation_definition namespace request) s =
      (who_can_access_method b ctx resource relation_definition namespace request s).1
  serve (ask_what ctx target request) s = (what_can_target_access_method b ctx target request s).1
  serve (poll id remote now later) s =
      on_project id (tick remote now later) (lookup id s.projects) s
  serve (fire id now) s = on_project id (timer now) (lookup id s.projects) s

  unfoldable pub serve_all : List Request → Service b → Service b
  serve_all [] s = s
  serve_all (r ∷ rs) s = serve_all rs (serve r s)
