-- ===== src/Services/Access.antt =====
-- `WhoCanAccess` and `WhatCanTargetAccess`: candidates from the lookup cache, each checked again. The
-- clock is read for each call of the cache, which uses the time if it finds an entry or adds one.
pub mod Filter
pub mod Listed
pub mod Indexing
use authzcache.Base.{
  ℕ, zero, suc, ◌-◌, Bool, true, false, List, [], ◌∷◌, map, Option, none, some, Text, length,
  get_elem?, if◌then◌else◌, ◌>>=◌,
}
use authzcache.Sdk.{Relation, Check, AuthzRelation}
use authzcache.Cel.{RequestContext}
use authzcache.Cache.{Externals, ProjectCache}
use authzcache.Cache.Lookup.{
  get_who_can_access_cached, set_who_can_access_cached, get_what_can_target_access_cached,
  set_what_can_target_access_cached,
}
use authzcache.Metrics.{ApiName}
use authzcache.Services.Backend.{
  Reply, replied, failed, Response, ok, error, panic, Backend, Session,
}
use authzcache.Services.Check.{check, record_metric}

-- The loop over the checks, from index `i`. `none` is the panic of `candidates[i]`.
pub verified_from : {A : Type 0} → List A → ℕ → List Check → Option (List A)
verified_from candidates i [] = some []
verified_from candidates i (c ∷ cs) =
    let rest = verified_from candidates (suc i) cs in
    if c.allowed
    then (do a ← get_elem? candidates i; verified ← rest; some (a ∷ verified))
    else rest

-- the relation that a target of `WhoCanAccess` stands for; the target type is a star
pub candidate_relation : Text → Text → Text → Text → Relation
candidate_relation resource relation_definition namespace target = record {
  resource = resource;
  resource_type = namespace;
  relation = relation_definition;
  target = target;
  target_type = b'*' ∷ [];
}

-- and the one that a relation of `WhatCanTargetAccess` stands for
pub candidate_of_target : Text → AuthzRelation → Relation
candidate_of_target target r = record {
  resource = r.resource;
  resource_type = r.namespace;
  relation = r.relation_definition;
  target = target;
  target_type = b'*' ∷ [];
}

keep_verified : {A : Type 0} → List A → Response (List Check) → Response (List A)
keep_verified candidates (error e) = error e
keep_verified candidates panic = panic
keep_verified candidates (ok checks) = elim (verified_from candidates 0 checks) [
  | none ↦ panic
  | some verified ↦ ok verified
]

module _ {x : Externals} (b : Backend x) where
  -- the two filters: `Check` of the relations of the candidates
  pub filter_candidates :
      {A : Type 0}
      → x.cel.Context
      → b.Client
      → (A → Relation)
      → List A
      → RequestContext x.cel
      → Session x b
      → Response (List A) × Session x b
  unfolding keep_verified
  filter_candidates ctx client relation_of candidates request s =
      let (response, s') = check b ctx client (map relation_of candidates) request s in
      (keep_verified candidates response, s')

  -- the metric of a cache hit, if the filter gives a result
  pub record_filtered :
      {A : Type 0}
      → x.cel.Context
      → ApiName
      → ℕ
      → ℕ
      → Response (List A) × Session x b
      → Response (List A) × Session x b
  record_filtered ctx api candidates start (error e, s) = (error e, s)
  record_filtered ctx api candidates start (panic, s) = (panic, s)
  record_filtered ctx api candidates start (ok verified, s) = (
    ok verified,
    record_metric b ctx api true candidates (candidates - length verified) (length verified) start
        s,
  )

  -- after the SDK's `WhoCanAccess`
  take_targets :
      x.cel.Context
      → ℕ
      → Text
      → Text
      → Text
      → Reply (List Text)
      → Session x b
      → Response (List Text) × Session x b
  take_targets ctx start resource relation_definition namespace (failed e) s = (error e, s)
  take_targets ctx start resource relation_definition namespace (replied targets) s =
      let (now, w) = b.read_clock s.world in
      (
        ok targets,
        record_metric b ctx ApiName.who_can_access false 0 0 (length targets) start (record s {
          cache =
              set_who_can_access_cached now resource relation_definition namespace targets s.cache;
          world = w;
        }),
      )

  fetch_targets :
      x.cel.Context
      → b.Client
      → ℕ
      → Text
      → Text
      → Text
      → Session x b
      → Response (List Text) × Session x b
  unfolding take_targets
  fetch_targets ctx client start resource relation_definition namespace s =
      let (reply, w) = b.who_can_access client ctx resource relation_definition namespace s.world in
      take_targets ctx start resource relation_definition namespace reply (record s { world = w })

  -- `cacheHit && len(candidates) > 0`
  who_from :
      x.cel.Context
      → b.Client
      → ℕ
      → Text
      → Text
      → Text
      → RequestContext x.cel
      → Option (List Text)
      → Session x b
      → Response (List Text) × Session x b
  unfolding fetch_targets record_filtered
  who_from ctx client start resource relation_definition namespace request none s =
      fetch_targets ctx client start resource relation_definition namespace s
  who_from ctx client start resource relation_definition namespace request (some []) s =
      fetch_targets ctx client start resource relation_definition namespace s
  who_from ctx client start resource relation_definition namespace request (some (t ∷ ts)) s =
      record_filtered ctx ApiName.who_can_access (length (t ∷ ts)) start (
        filter_candidates ctx client (candidate_relation resource relation_definition namespace)
          (t ∷ ts) request s)

  -- `WhoCanAccess`, once the time is read and the project is found
  pub who_can_access :
      x.cel.Context
      → b.Client
      → Text
      → Text
      → Text
      → RequestContext x.cel
      → ℕ
      → Session x b
      → Response (List Text) × Session x b
  unfolding who_from
  who_can_access ctx client resource relation_definition namespace request start s =
      let (now, w) = b.read_clock s.world in
      let (candidates, pc) =
        get_who_can_access_cached now resource relation_definition namespace s.cache in
      who_from ctx client start resource relation_definition namespace request candidates
        (record s { cache = pc; world = w })

  -- after the SDK's `WhatCanTargetAccess`
  take_relations :
      x.cel.Context
      → ℕ
      → Text
      → Reply (List AuthzRelation)
      → Session x b
      → Response (List AuthzRelation) × Session x b
  take_relations ctx start target (failed e) s = (error e, s)
  take_relations ctx start target (replied relations) s =
      let (now, w) = b.read_clock s.world in
      (
        ok relations,
        record_metric b ctx ApiName.what_can_target_access false 0 0 (length relations) start
            (record s {
              cache = set_what_can_target_access_cached now target relations s.cache;
              world = w;
            }),
      )

  fetch_relations :
      x.cel.Context
      → b.Client
      → ℕ
      → Text
      → Session x b
      → Response (List AuthzRelation) × Session x b
  unfolding take_relations
  fetch_relations ctx client start target s =
      let (reply, w) = b.what_can_target_access client ctx target s.world in
      take_relations ctx start target reply (record s { world = w })

  what_from :
      x.cel.Context
      → b.Client
      → ℕ
      → Text
      → RequestContext x.cel
      → Option (List AuthzRelation)
      → Session x b
      → Response (List AuthzRelation) × Session x b
  unfolding fetch_relations record_filtered
  what_from ctx client start target request none s = fetch_relations ctx client start target s
  what_from ctx client start target request (some []) s = fetch_relations ctx client start target s
  what_from ctx client start target request (some (r ∷ rs)) s =
      record_filtered ctx ApiName.what_can_target_access (length (r ∷ rs)) start
        (filter_candidates ctx client (candidate_of_target target) (r ∷ rs) request s)

  -- `WhatCanTargetAccess`, once the time is read and the project is found
  pub what_can_target_access :
      x.cel.Context
      → b.Client
      → Text
      → RequestContext x.cel
      → ℕ
      → Session x b
      → Response (List AuthzRelation) × Session x b
  unfolding what_from
  what_can_target_access ctx client target request start s =
      let (now, w) = b.read_clock s.world in
      let (candidates, pc) = get_what_can_target_access_cached now target s.cache in
      what_from ctx client start target request candidates (record s { cache = pc; world = w })
