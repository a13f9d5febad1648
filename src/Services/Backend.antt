-- ===== src/Services/Backend.antt =====
-- What the service takes from outside the repository: the management SDK of a project, the project
-- id of a context, the clock. Every call sees and changes the world.
use authzcache.Base.{ℕ, List, ◌≡◌, map, Option, Text}
use authzcache.Sdk.{Relation, Check, Schema, AuthzRelation, GoError}
use authzcache.Cel.{RequestContext}
use authzcache.Cache.{Externals, ProjectCache}
use authzcache.Metrics.{Collector}

-- a result and a nil error, or an error
pub data Reply (A : Type 0) : Type 0 where
  replied : A → Reply A
  failed : GoError → Reply A

-- what a method of the service does: it returns a result, returns an error, or panics (an index out
-- of range)
pub data Response (A : Type 0) : Type 0 where
  ok : A → Response A
  error : GoError → Response A
  panic : Response A

module _ (x : Externals) where
  pub record Backend : Type 1 where
    pub World : Type 0
    -- sdk.Management
    pub Client : Type 0
    -- `cctx.ProjectID`
    pub project_id : x.cel.Context → Text
    -- `time.Now()`, in nanoseconds
    pub read_clock : World → ℕ × World
    -- `remoteClientCreator`
    pub new_client : Text → World → Reply Client × World
    pub check_with_context :
        Client
        → x.cel.Context
        → List Relation
        → RequestContext x.cel
        → World
        → Reply (List Check) × World
    pub load_schema : Client → x.cel.Context → World → Reply (Option Schema) × World
    pub save_schema : Client → x.cel.Context → Text → World → Reply (Unit {0}) × World
    pub create_relations : Client → x.cel.Context → List Relation → World → Reply (Unit {0}) × World
    pub delete_relations : Client → x.cel.Context → List Relation → World → Reply (Unit {0}) × World
    pub who_can_access :
        Client → x.cel.Context → Text → Text → Text → World → Reply (List Text) × World
    pub what_can_target_access :
        Client → x.cel.Context → Text → World → Reply (List AuthzRelation) × World

  -- The SDK answers a check request with one check per relation, in the order of the request.
  pub record BackendLaws (b : Backend) : Type 0 where
    pub in_order :
        (client : b.Client) (ctx : x.cel.Context) (rs : List Relation)
        (request : RequestContext x.cel) (w : b.World) (cs : List Check)
        → (b.check_with_context client ctx rs request w).0 ≡ replied cs
        → map (λ (c : Check). c.relation) cs ≡ rs

  -- What a request works on: its project's cache, the collector (nil or not) and the world.
  pub record Session (b : Backend) : Type 0 where
    pub cache : ProjectCache x
    pub collector : Option Collector
    pub world : b.World
