-- ===== src/Services/Access/Indexing.antt =====
-- The two lookups keep every cached direct grant of their project findable by the sweeps.
use authzcache.Base.{ℕ, List, [], ◌∷◌, map, Option, none, some, Text}
use authzcache.Sdk.{Relation, AuthzRelation}
use authzcache.Cel.{RequestContext}
use authzcache.Cache.{Externals, ExternalLaws}
use authzcache.Cache.Lookup.{get_who_can_access_cached, get_what_can_target_access_cached}
use authzcache.Cache.Lookup.Frame.{get_wcta-frame, get_wca-frame, set_wca-frame, set_wcta-frame}
use authzcache.Cache.Updates.Invalidation.{Indexed}
use authzcache.Cache.History.{lookup-Indexed}
use authzcache.Metrics.{ApiName}
use authzcache.Services.Backend.{
  Reply, replied, failed, Response, ok, error, panic, Backend, Session,
}
use authzcache.Services.Check.Indexing.{record_metric-Indexed, check-Indexed}
use authzcache.Services.Access.{
  candidate_relation, candidate_of_target, filter_candidates, record_filtered, take_targets,
  fetch_targets, who_from, who_can_access, take_relations, fetch_relations, what_from,
  what_can_target_access,
}

module _ {x : Externals} (laws : ExternalLaws x) (b : Backend x) (ctx : x.cel.Context)
    (client : b.Client) (request : RequestContext x.cel) where
  filter_candidates-Indexed :
      {A : Type 0} (relation_of : A → Relation) (candidates : List A) (s : Session x b)
      → Indexed laws s.cache
      → Indexed laws (filter_candidates b ctx client relation_of candidates request s).1.cache
  unfolding filter_candidates
  filter_candidates-Indexed relation_of candidates s h =
      check-Indexed laws b ctx client (map relation_of candidates) request s h

  record_filtered-Indexed :
      {A : Type 0} (api : ApiName) (n start : ℕ) (out : Response (List A) × Session x b)
      → Indexed laws out.1.cache
      → Indexed laws (record_filtered b ctx api n start out).1.cache
  unfolding record_filtered
  record_filtered-Indexed api n start (error e, s) h = h
  record_filtered-Indexed api n start (panic, s) h = h
  record_filtered-Indexed api n start (ok kept, s) h =
      record_metric-Indexed laws b ctx _ _ _ _ _ start s h

  module _ (resource relation_definition namespace : Text) where
    take_targets-Indexed :
        (start : ℕ) (reply : Reply (List Text)) (s : Session x b)
        → Indexed laws s.cache
        → Indexed laws
            (take_targets b ctx start resource relation_definition namespace reply s).1.cache
    unfolding take_targets
    take_targets-Indexed start (failed e) s h = h
    take_targets-Indexed start (replied targets) s h =
        let (now, w) = b.read_clock s.world in
        record_metric-Indexed laws b ctx _ _ _ _ _ start _ (
          lookup-Indexed laws s.cache _
            (set_wca-frame now resource relation_definition namespace targets s.cache) h)

    who_from-Indexed :
        (start : ℕ) (cached : Option (List Text)) (s : Session x b)
        → Indexed laws s.cache
        → Indexed laws
            (who_from b ctx client start resource relation_definition namespace request cached
              s).1.cache
    unfolding who_from fetch_targets
    who_from-Indexed start none s h =
        let (reply, w) =
          b.who_can_access client ctx resource relation_definition namespace s.world in
        take_targets-Indexed start reply (record s { world = w }) h
    who_from-Indexed start (some []) s h =
        let (reply, w) =
          b.who_can_access client ctx resource relation_definition namespace s.world in
        take_targets-Indexed start reply (record s { world = w }) h
    who_from-Indexed start (some (t ∷ ts)) s h = record_filtered-Indexed _ _ start _ (
        filter_candidates-Indexed (candidate_relation resource relation_definition namespace)
          (t ∷ ts) s h)

    -- `WhoCanAccess` keeps what is cached findable.
    pub who_can_access-Indexed :
        (start : ℕ) (s : Session x b)
        → Indexed laws s.cache
        → Indexed laws
            (who_can_access b ctx client resource relation_definition namespace request start
              s).1.cache
    unfolding who_can_access
    who_can_access-Indexed start s h =
        let (now, w) = b.read_clock s.world in
        let (cached, pc) =
          get_who_can_access_cached now resource relation_definition namespace s.cache in
        who_from-Indexed start cached (record s { cache = pc; world = w })
          (lookup-Indexed laws s.cache pc
            (get_wca-frame now resource relation_definition namespace s.cache) h)

  module _ (target : Text) where
    take_relations-Indexed :
        (start : ℕ) (reply : Reply (List AuthzRelation)) (s : Session x b)
        → Indexed laws s.cache
        → Indexed laws (take_relations b ctx start target reply s).1.cache
    unfolding take_relations
    take_relations-Indexed start (failed e) s h = h
    take_relations-Indexed start (replied relations) s h =
        let (now, w) = b.read_clock s.world in
        record_metric-Indexed laws b ctx _ _ _ _ _ start _
          (lookup-Indexed laws s.cache _ (set_wcta-frame now target relations s.cache) h)

    what_from-Indexed :
        (start : ℕ) (cached : Option (List AuthzRelation)) (s : Session x b)
        → Indexed laws s.cache
        → Indexed laws (what_from b ctx client start target request cached s).1.cache
    unfolding what_from fetch_relations
    what_from-Indexed start none s h =
        let (reply, w) = b.what_can_target_access client ctx target s.world in
        take_relations-Indexed start reply (record s { world = w }) h
    what_from-Indexed start (some []) s h =
        let (reply, w) = b.what_can_target_access client ctx target s.world in
        take_relations-Indexed start reply (record s { world = w }) h
    what_from-Indexed start (some (r ∷ rs)) s h =
        record_filtered-Indexed _ _ start _
          (filter_candidates-Indexed (candidate_of_target target) (r ∷ rs) s h)

    -- `WhatCanTargetAccess` keeps what is cached findable.
    pub what_can_target_access-Indexed :
        (start : ℕ) (s : Session x b)
        → Indexed laws s.cache
        → Indexed laws (what_can_target_access b ctx client target request start s).1.cache
    unfolding what_can_target_access
    what_can_target_access-Indexed start s h =
        let (now, w) = b.read_clock s.world in
        let (cached, pc) = get_what_can_target_access_cached now target s.cache in
        what_from-Indexed start cached (record s { cache = pc; world = w })
          (lookup-Indexed laws s.cache pc (get_wcta-frame now target s.cache) h)
