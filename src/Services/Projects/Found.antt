-- ===== src/Services/Projects/Found.antt =====
-- A method of the service on the project that `getOrCreateProjectCache` returns: the answers are those
-- of that project's cache.
use authzcache.Base.{◌≡◌, sym, ap, subst, List, text_eq}
use authzcache.Sdk.{Relation, Check}
use authzcache.Cel.{RequestContext}
use authzcache.Cache.{Externals, ExternalLaws}
use authzcache.Cache.Checks.Gather.{answer}
use authzcache.Services.Backend.{Reply, replied, Response, Backend, BackendLaws, Session}
use authzcache.Services.Check.{check_since}
use authzcache.Services.Check.Merge.{Answered, sdk_reply, check_since-Answered}
use authzcache.Services.Projects.{
  Project, Service, get_or_create_project_cache, run_body, with_project, check_method,
}

module _ {x : Externals} (b : Backend x) where
  -- what a method's body works on
  pub session_of : Project b → Service b → Session x b
  session_of p s = record { cache = p.cache; collector = s.collector; world = s.world }

  pub with_project-body :
      {A : Type 0} (ctx : x.cel.Context) (body : b.Client → Session x b → Response A × Session x b)
      (p : Project b) (s s' : Service b)
      → get_or_create_project_cache b ctx s ≡ (replied p, s')
      → (with_project b ctx body s).0 ≡ (body p.client (session_of p s')).0
  unfolding with_project run_body session_of
  with_project-body ctx body p s s' e =
      ap {A = Reply (Project b) × Service b} (λ found. (run_body b (b.project_id ctx) body found).0)
        e

  module _ (laws : ExternalLaws x) (honest : BackendLaws x b) (ctx : x.cel.Context) where
    -- `Check` of the service answers as `Check` does from the cache of the project that is found or made
    -- after the clock is read.
    pub check_method-Answered :
        (rs : List Relation) (request : RequestContext x.cel) (p : Project b) (s s' : Service b)
        → get_or_create_project_cache b ctx (record s { world = (b.read_clock s.world).1 })
          ≡ (replied p, s')
        → Answered
            (answer laws ctx request p.cache)
            (sdk_reply laws b honest ctx p.client request s'.world)
            rs
            (check_method b ctx rs request s).0
    unfolding check_method session_of
    check_method-Answered rs request p s s' e =
        let (start, w) = b.read_clock s.world in
        subst {A = Response (List Check)}
          (Answered (answer laws ctx request p.cache)
            (sdk_reply laws b honest ctx p.client request s'.world) rs)
          (sym (
            with_project-body ctx (λ client t. check_since b ctx client rs request start t) p
              (record s { world = w }) s' e))
          (check_since-Answered laws b honest ctx p.client request rs start (session_of p s'))
