-- ===== src/Services/Access/Listed.antt =====
-- What a lookup returns, and that `WhoCanAccess` does.
pub mod Relations
use authzcache.Base.{
  ℕ, ◌≡◌, refl, sym, ◌∙◌, ap, subst, List, [], ◌∷◌, Option, none, some, Text, Option-cases, inl,
  inr,
}
use authzcache.Sdk.{Relation, Check, AuthzRelation, GoError}
use authzcache.Cel.{RequestContext}
use authzcache.Cache.{Externals, ExternalLaws, ProjectCache}
use authzcache.Cache.Checks.{serve_grant, cert_matches, conditions_eval_to, evaluates_to}
use authzcache.Cache.Checks.Gather.{answer, cached_grant}
use authzcache.Cache.Lookup.{get_who_can_access_cached, get_what_can_target_access_cached}
use authzcache.Cache.Lookup.Frame.{LookupOnly, get_wca-frame, get_wcta-frame}
use authzcache.Metrics.{ApiName}
use authzcache.Services.Backend.{
  Reply, replied, failed, Response, ok, error, panic, Backend, BackendLaws, Session,
}
use authzcache.Services.Access.{
  candidate_relation, candidate_of_target, filter_candidates, record_filtered, take_targets,
  fetch_targets, who_from, who_can_access, take_relations, fetch_relations, what_from,
  what_can_target_access,
}
use authzcache.Services.Check.Merge.{sdk_reply}
use authzcache.Services.Access.Filter.{Verified, filter_candidates-Verified}

-- the lookup cache gives no candidates
abbrev pub NoCandidates : {A : Type 0} → Option (List A) → Type 0
NoCandidates none = Unit {0}
NoCandidates (some []) = Unit {0}
NoCandidates (some (a ∷ rest)) = ⊥

-- What a lookup returns, for the cached answers, for what the SDK replies to a check request, for the
-- candidates of the lookup cache and for what the backend replies to the lookup: without candidates
-- what the backend replies, its error included; with candidates what their filter returns.
pub data Listed {A : Type 0} (answer : Relation → Option Check)
    (ask : List Relation → Reply (List Check)) (relation_of : A → Relation)
    (cached : Option (List A)) (reply : Reply (List A)) : Response (List A) → Type 0 where
  unlisted :
      (e : GoError)
      → NoCandidates cached
      → reply ≡ failed e
      → Listed answer ask relation_of cached reply (error e)
  from_backend :
      (found : List A)
      → NoCandidates cached
      → reply ≡ replied found
      → Listed answer ask relation_of cached reply (ok found)
  from_candidates :
      (candidate : A) (candidates : List A) (response : Response (List A))
      → cached ≡ some (candidate ∷ candidates)
      → Verified answer ask relation_of (candidate ∷ candidates) response
      → Listed answer ask relation_of cached reply response

module _ {x : Externals} (laws : ExternalLaws x) (b : Backend x) (honest : BackendLaws x b) where
  pub answer-LookupOnly :
      (ctx : x.cel.Context) (request : RequestContext x.cel) (pc pc' : ProjectCache x)
      → LookupOnly pc pc'
      → answer laws ctx request pc' ≡ answer laws ctx request pc
  unfolding answer cached_grant serve_grant cert_matches conditions_eval_to evaluates_to
  answer-LookupOnly ctx request pc pc' f =
      let restored : answer laws ctx request
            (record pc { lookup_cache = f.lookup_cache; entries = f.entries })
          ≡ answer laws ctx request pc =
        refl in
      ap (answer laws ctx request) f.same ∙ restored

  module _ (ctx : x.cel.Context) (client : b.Client) (request : RequestContext x.cel) where
    -- the metric changes nothing of what the filter returned
    record_filtered-response :
        {A : Type 0} (api : ApiName) (n start : ℕ) (out : Response (List A) × Session x b)
        → (record_filtered b ctx api n start out).0 ≡ out.0
    unfolding record_filtered
    record_filtered-response api n start (error e, s) = refl
    record_filtered-response api n start (ok kept, s) = refl
    record_filtered-response api n start (panic, s) = refl

    pub record_filtered-Listed :
        {A : Type 0} (answers : Relation → Option Check) (ask : List Relation → Reply (List Check))
        (relation_of : A → Relation) (candidate : A) (candidates : List A) (reply : Reply (List A))
        (api : ApiName) (n start : ℕ) (out : Response (List A) × Session x b)
        → Verified answers ask relation_of (candidate ∷ candidates) out.0
        → Listed answers ask relation_of
            (some (candidate ∷ candidates))
            reply
            (record_filtered b ctx api n start out).0
    record_filtered-Listed answers ask relation_of candidate candidates reply api n start out v =
        from_candidates candidate candidates _ refl (
          subst (Verified answers ask relation_of (candidate ∷ candidates))
            (sym (record_filtered-response api n start out)) v)

    -- what the SDK replies to the check request of a filter: after the clock was read for the lookup
    -- cache and for `Check`
    abbrev pub filter_reply : Session x b → List Relation → Reply (List Check)
    filter_reply s =
        sdk_reply laws b honest ctx client request (b.read_clock (b.read_clock s.world).1).1

    module _ (resource relation_definition namespace : Text) where
      abbrev pub ask_who : b.World → Reply (List Text) × b.World
      ask_who = b.who_can_access client ctx resource relation_definition namespace

      abbrev pub who : Text → Relation
      who = candidate_relation resource relation_definition namespace

      take_targets-Listed :
          (answers : Relation → Option Check) (ask : List Relation → Reply (List Check))
          (cached : Option (List Text)) (start : ℕ) (reply found : Reply (List Text))
          (s : Session x b)
          → NoCandidates cached
          → reply ≡ found
          → Listed answers ask who cached reply
              (take_targets b ctx start resource relation_definition namespace found s).0
      unfolding take_targets
      take_targets-Listed answers ask cached start reply (failed e) s n h = unlisted e n h
      take_targets-Listed answers ask cached start reply (replied found) s n h =
          from_backend found n h

      fetch_targets-Listed :
          (answers : Relation → Option Check) (ask : List Relation → Reply (List Check))
          (cached : Option (List Text)) (start : ℕ) (s : Session x b)
          → NoCandidates cached
          → Listed answers ask who cached
              (ask_who s.world).0
              (fetch_targets b ctx client start resource relation_definition namespace s).0
      unfolding fetch_targets
      fetch_targets-Listed answers ask cached start s n =
          let (reply, w) = ask_who s.world in
          take_targets-Listed answers ask cached start reply reply (record s { world = w }) n refl

      who_from-Listed :
          (start : ℕ) (cached : Option (List Text)) (s : Session x b)
          → Listed
              (answer laws ctx request s.cache)
              (sdk_reply laws b honest ctx client request (b.read_clock s.world).1)
              who
              cached
              (ask_who s.world).0
              (who_from b ctx client start resource relation_definition namespace request cached
                s).0
      unfolding who_from
      who_from-Listed start none s = fetch_targets-Listed _ _ none start s tt
      who_from-Listed start (some []) s = fetch_targets-Listed _ _ (some []) start s tt
      who_from-Listed start (some (t ∷ ts)) s =
          record_filtered-Listed (answer laws ctx request s.cache) _ who t ts _ _ _ start _
            (filter_candidates-Verified laws b honest ctx client who (t ∷ ts) request s)

      pub who_can_access-Listed :
          (start : ℕ) (s : Session x b)
          → Listed
              (answer laws ctx request s.cache)
              (filter_reply s)
              who
              (get_who_can_access_cached
                (b.read_clock s.world).0
                resource
                relation_definition
                namespace
                s.cache).0
              (ask_who (b.read_clock s.world).1).0
              (who_can_access b ctx client resource relation_definition namespace request start s).0
      unfolding who_can_access
      who_can_access-Listed start s =
          let now = b.read_clock s.world in
          let got =
            get_who_can_access_cached now.0 resource relation_definition namespace s.cache in
          let same =
            answer-LookupOnly ctx request s.cache got.1
              (get_wca-frame now.0 resource relation_definition namespace s.cache) in
          subst
            (λ answers.
              Listed answers (filter_reply s) who got.0 (ask_who now.1).0
                (who_from b ctx client start resource relation_definition namespace request got.0
                  (record s { cache = got.1; world = now.1 })).0)
            same (who_from-Listed start got.0 (record s { cache = got.1; world = now.1 }))
