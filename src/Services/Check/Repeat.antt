-- ===== src/Services/Check/Repeat.antt =====
-- `Check` of a relation that was checked before.
use authzcache.Base.{
  ℕ, ◌≡◌, refl, sym, ◌∙◌, ap, subst, true, false, [], ◌∷◌, Option, none, some, inl, nat_eq, length,
}
use authzcache.Base.Map.{lookup}
use authzcache.Sdk.{Relation, Check}
use authzcache.Cel.{RequestContext}
use authzcache.Direct.{CachedGrant}
use authzcache.Cache.{Externals, ExternalLaws, ProjectCache}
use authzcache.Cache.Checks.{Checked, collect, check_relations}
use authzcache.Cache.Checks.Gather.{gather, answer, check_relations-gather}
use authzcache.Cache.Updates.{grant_of, store_check, update_cache_with_checks}
use authzcache.Cache.Updates.Hits.{served, stored_served}
use authzcache.Metrics.{ApiName}
use authzcache.Services.Backend.{replied, ok, Backend, Session}
use authzcache.Services.Check.{
  is_cacheable_conditional, has_cacheable_conditional, merge, record_metric, store_sdk_checks,
  respond_merged, take_checks, complete, check_since, check,
}
use authzcache.Services.Check.Hits.{metered, hits_make_no_call}
use authzcache.Services.Check.Indexing.{record_on-cache}

-- A direct check that rests on no condition and on no fact.
pub record IsPlainDirect (c : Check) : Type 0 where
  pub direct : c.info.direct ≡ true
  pub conditional : c.info.conditional ≡ false
  pub fact_used : c.info.fact_used ≡ false

-- what is cached for it
abbrev pub plain_grant : Check → CachedGrant
plain_grant c = record { allowed = c.allowed; cond = none }

-- what `CheckRelations` finds for one relation that is not cached
abbrev unanswered : Relation → Checked
unanswered r = record { checks = []; unchecked = r ∷ []; index_to_check = [] }

gather-unanswered :
    (ask : Relation → Option Check) (r : Relation)
    → ask r ≡ none
    → gather ask 0 (r ∷ []) ≡ unanswered r
unfolding gather collect
gather-unanswered ask r e =
    ap {A = Option Check}
      (λ o. collect 0 r o (record { checks = []; unchecked = []; index_to_check = [] })) e

module _ {x : Externals} (laws : ExternalLaws x) (b : Backend x) where
  grant_of-plain :
      (c : Check) (pc : ProjectCache x) → IsPlainDirect c → grant_of c pc ≡ some (plain_grant c)
  unfolding grant_of
  grant_of-plain c pc h = rw (h.fact_used, h.conditional) refl

  module _ (ctx : x.cel.Context) (client : b.Client) (request : RequestContext x.cel) where
    store_sdk_checks-plain :
        (c : Check) (s : Session x b)
        → IsPlainDirect c
        → (store_sdk_checks b ctx client (c ∷ []) s).cache ≡ store_check c s.cache
    unfolding store_sdk_checks has_cacheable_conditional is_cacheable_conditional
        update_cache_with_checks
    store_sdk_checks-plain c s h = rw h.conditional refl

    -- the check of the SDK is returned and stored
    complete-unanswered :
        (start : ℕ) (c : Check) (w : b.World) (s : Session x b)
        → IsPlainDirect c
        → b.check_with_context client ctx (c.relation ∷ []) request s.world ≡ (replied (c ∷ []), w)
        → let out =
            complete b ctx client start
              (c.relation ∷ [])
              request
              (unanswered c.relation)
              (c.relation ∷ [])
              s in
          (out.0 ≡ ok (c ∷ [])) × (out.1.cache ≡ store_check c s.cache)
    unfolding complete take_checks respond_merged merge record_metric lookup
    complete-unanswered start c w s h e =
        let kept = store_sdk_checks b ctx client (c ∷ []) (record s { world = w }) in
        rw e (
          refl,
          record_on-cache laws b ctx ApiName.check false (length (c.relation ∷ [])) 0
                (length (c ∷ [])) start kept.collector kept
              ∙ store_sdk_checks-plain c (record s { world = w }) h,
        )

    check-unanswered :
        (c : Check) (w : b.World) (s : Session x b)
        → IsPlainDirect c
        → answer laws ctx request s.cache c.relation ≡ none
        → b.check_with_context client ctx (c.relation ∷ []) request (b.read_clock s.world).1
          ≡ (replied (c ∷ []), w)
        → let out = check b ctx client (c.relation ∷ []) request s in
          (out.0 ≡ ok (c ∷ []))
          × (out.1.cache ≡ store_check c (check_relations ctx request (c.relation ∷ []) s.cache).1)
    unfolding check check_since
    check-unanswered c w s h miss e =
        let pc = (check_relations ctx request (c.relation ∷ []) s.cache).1 in
        let clock = b.read_clock s.world in
        let t : Session x b = record s { cache = pc; world = clock.1 } in
        subst {A = Checked}
          (λ k.
            let out = complete b ctx client clock.0 (c.relation ∷ []) request k k.unchecked t in
            (out.0 ≡ ok (c ∷ [])) × (out.1.cache ≡ store_check c pc))
          (sym (
            (check_relations-gather laws ctx request (c.relation ∷ []) s.cache).0
            ∙ gather-unanswered (answer laws ctx request s.cache) c.relation miss))
          (complete-unanswered clock.0 c w t h e)

    -- If the cache has no answer for a relation and the SDK answers it with a direct check that rests on
    -- no condition and on no fact, then `Check` returns that check, and the next `Check` of the relation
    -- on what this one leaves, by any context, client and request, returns the same verdict without a
    -- call of the SDK: of the outside it only reads the clock.
    pub asked_once :
        (c : Check) (w : b.World) (s : Session x b) (ctx' : x.cel.Context) (client' : b.Client)
        (request' : RequestContext x.cel)
        → IsPlainDirect c
        → answer laws ctx request s.cache c.relation ≡ none
        → b.check_with_context client ctx (c.relation ∷ []) request (b.read_clock s.world).1
          ≡ (replied (c ∷ []), w)
        → let first = check b ctx client (c.relation ∷ []) request s in
          let second = check b ctx' client' (c.relation ∷ []) request' first.1 in
          (first.0 ≡ ok (c ∷ []))
          × (second.0 ≡ ok (served c.relation true (plain_grant c) ∷ []))
          × (second.1.world ≡ metered laws b first.1.collector (b.read_clock first.1.world).1)
    unfolding served
    asked_once c w s ctx' client' request' h miss e =
        let first = check b ctx client (c.relation ∷ []) request s in
        let pc = (check_relations ctx request (c.relation ∷ []) s.cache).1 in
        let (returned, stored) = check-unanswered c w s h miss e in
        let hit : answer laws ctx' request' first.1.cache c.relation
            ≡ some (served c.relation true (plain_grant c)) =
          ap (λ k. answer laws ctx' request' k c.relation) stored
          ∙ stored_served laws ctx' request' c (plain_grant c) pc (grant_of-plain c pc h)
              (inl h.direct) tt
          ∙ ap (λ d. some (served c.relation d (plain_grant c))) h.direct in
        let (again, quiet) =
          hits_make_no_call laws b ctx' client' request' (c.relation ∷ [])
            (served c.relation true (plain_grant c) ∷ []) first.1 (ap (λ o. o ∷ []) hit) in
        (returned, again, quiet)
