-- ===== src/Services/Access/Listed/Relations.antt =====
-- That `WhatCanTargetAccess` returns what a lookup returns.
use authzcache.Base.{ℕ, ◌≡◌, refl, subst, List, [], ◌∷◌, Option, none, some, Text}
use authzcache.Sdk.{Relation, Check, AuthzRelation}
use authzcache.Cel.{RequestContext}
use authzcache.Cache.{Externals, ExternalLaws}
use authzcache.Cache.Checks.Gather.{answer}
use authzcache.Cache.Lookup.{get_what_can_target_access_cached}
use authzcache.Cache.Lookup.Frame.{get_wcta-frame}
use authzcache.Services.Backend.{Reply, replied, failed, Backend, BackendLaws, Session}
use authzcache.Services.Access.{
  candidate_of_target, take_relations, fetch_relations, what_from, what_can_target_access,
}
use authzcache.Services.Check.Merge.{sdk_reply}
use authzcache.Services.Access.Filter.{filter_candidates-Verified}
use authzcache.Services.Access.Listed.{
  Listed, unlisted, from_backend, NoCandidates, filter_reply, answer-LookupOnly,
  record_filtered-Listed,
}

module _ {x : Externals} (laws : ExternalLaws x) (b : Backend x) (honest : BackendLaws x b)
    (ctx : x.cel.Context) (client : b.Client) (request : RequestContext x.cel) (target : Text) where
  abbrev pub ask_what : b.World → Reply (List AuthzRelation) × b.World
  ask_what = b.what_can_target_access client ctx target

  abbrev pub what : AuthzRelation → Relation
  what = candidate_of_target target

  take_relations-Listed :
      (answers : Relation → Option Check) (ask : List Relation → Reply (List Check))
      (cached : Option (List AuthzRelation)) (start : ℕ) (reply found : Reply (List AuthzRelation))
      (s : Session x b)
      → NoCandidates cached
      → reply ≡ found
      → Listed answers ask what cached reply (take_relations b ctx start target found s).0
  unfolding take_relations
  take_relations-Listed answers ask cached start reply (failed e) s n h = unlisted e n h
  take_relations-Listed answers ask cached start reply (replied found) s n h =
      from_backend found n h

  fetch_relations-Listed :
      (answers : Relation → Option Check) (ask : List Relation → Reply (List Check))
      (cached : Option (List AuthzRelation)) (start : ℕ) (s : Session x b)
      → NoCandidates cached
      → Listed answers ask what cached
          (ask_what s.world).0
          (fetch_relations b ctx client start target s).0
  unfolding fetch_relations
  fetch_relations-Listed answers ask cached start s n =
      let (reply, w) = ask_what s.world in
      take_relations-Listed answers ask cached start reply reply (record s { world = w }) n refl

  what_from-Listed :
      (start : ℕ) (cached : Option (List AuthzRelation)) (s : Session x b)
      → Listed
          (answer laws ctx request s.cache)
          (sdk_reply laws b honest ctx client request (b.read_clock s.world).1)
          what
          cached
          (ask_what s.world).0
          (what_from b ctx client start target request cached s).0
  unfolding what_from
  what_from-Listed start none s = fetch_relations-Listed _ _ none start s tt
  what_from-Listed start (some []) s = fetch_relations-Listed _ _ (some []) start s tt
  what_from-Listed start (some (r ∷ rs)) s =
      record_filtered-Listed laws b honest ctx client request (answer laws ctx request s.cache) _
        what r rs _ _ _ start _
        (filter_candidates-Verified laws b honest ctx client what (r ∷ rs) request s)

  pub what_can_target_access-Listed :
      (start : ℕ) (s : Session x b)
      → Listed
          (answer laws ctx request s.cache)
          (filter_reply laws b honest ctx client request s)
          what
          (get_what_can_target_access_cached (b.read_clock s.world).0 target s.cache).0
          (ask_what (b.read_clock s.world).1).0
          (what_can_target_access b ctx client target request start s).0
  unfolding what_can_target_access
  what_can_target_access-Listed start s =
      let now = b.read_clock s.world in
      let got = get_what_can_target_access_cached now.0 target s.cache in
      let same =
        answer-LookupOnly laws b honest ctx request s.cache got.1
          (get_wcta-frame now.0 target s.cache) in
      subst
        (λ answers.
          Listed answers (filter_reply laws b honest ctx client request s) what got.0
            (ask_what now.1).0
            (what_from b ctx client start target request got.0
              (record s { cache = got.1; world = now.1 })).0)
        same (what_from-Listed start got.0 (record s { cache = got.1; world = now.1 }))
