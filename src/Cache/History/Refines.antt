-- ===== src/Cache/History/Refines.antt =====
-- The cache of a project against its specification: the grants that it may hold for a relation are
-- those of the backend's checks that no later call has cut.
use authzcache.Base.{
  ℕ, ◌≡◌, refl, sym, ◌∙◌, subst, Bool, true, false, List, [], ◌∷◌, some, ◌⊎◌, inl, inr, arith,
  text_eq, Option-cases,
}
use authzcache.Sdk.{Relation, Check, Modified}
use authzcache.Cel.{RequestContext}
use authzcache.Direct.{CachedGrant, key}
use authzcache.Direct.Key.{IsPlain, key-injective, IsPlain-IsUnambiguous}
use authzcache.Cache.{Externals, ExternalLaws, ProjectCache, Settings, new_project_authz_cache}
use authzcache.Cache.Checks.{Found, check_relations}
use authzcache.Cache.Checks.Gather.{answer, cached_grant, check_relations-gather}
use authzcache.Cache.Checks.Sound.{Served, answer-Served}
use authzcache.Cache.Schemas.{update_cache_with_schema}
use authzcache.Cache.Schemas.Purge.{
  update_cache_with_schema-IsPurged, ensure-direct, ensure-indirect,
}
use authzcache.Cache.Lookup.Frame.{
  LookupOnly, get_wcta-frame, get_wca-frame, set_wca-frame, set_wcta-frame, invalidate-frame,
}
use authzcache.Cache.Updates.Invalidation.{
  Touches, Indexed, Forgotten, added-Forgotten, deleted-Forgotten,
}
use authzcache.Cache.Updates.Admission.{From, store_of, update_cache_with_checks-Origin}
use authzcache.Cache.Updates.Keeps.{Keeps, fields-Keeps, purged-Keeps, deleted-Keeps, added-Keeps}
use authzcache.Cache.Polling.{changes}
use authzcache.Cache.Polling.Changes.{Reported}
use authzcache.Cache.Polling.Cooldown.{on_timer-IsPurged}
use authzcache.Cache.Polling.Tick.{polling-Forgotten}
use authzcache.Cache.Polling.Keeps.{polling-Keeps, on_timer-Keeps}
use authzcache.Cache.History.{
  Call, check, schema_updated, schema_loaded, added, deleted, checked, tick, timer, get_who,
  set_who, get_what, set_what, invalidate, step, run, step-Indexed, new-Indexed, new-Forgotten,
}
use authzcache.Cache.History.Spec.{Permitted, Backed, spec_step, spec_run}

module _ {x : Externals} (laws : ExternalLaws x) where
  open laws.grants use {peek}

  -- Every grant that is cached for the relation is permitted.
  abbrev pub Refines : Relation → ProjectCache x → Permitted → Type 0
  Refines q pc P =
      (direct : Bool) (g : CachedGrant)
      → peek (store_of laws direct pc) (key q) ≡ some g
      → P direct g

  From-Backed :
      (q : Relation) (pc : ProjectCache x) (direct : Bool) (g : CachedGrant) (cs : List Check)
      → IsPlain q
      → From pc direct (key q) g cs
      → Backed q pc direct g cs
  From-Backed q pc direct g [] plain f = absurd f
  From-Backed q pc direct g (c ∷ cs) plain (inl (same, kind, a)) =
      let (r, t, l) = key-injective c.relation q plain same in inl (r, t, l, kind, a)
  From-Backed q pc direct g (c ∷ cs) plain (inr f) = inr (From-Backed q pc direct g cs plain f)

  lookup-Keeps : (pc pc' : ProjectCache x) → LookupOnly pc pc' → Keeps laws pc pc'
  lookup-Keeps pc pc' f = subst (Keeps laws pc) (sym f.same) (fields-Keeps laws pc _ refl refl)

  check-Keeps :
      (ctx : x.cel.Context) (request : RequestContext x.cel) (rs : List Relation)
      (pc : ProjectCache x)
      → Keeps laws pc (check_relations ctx request rs pc).1
  check-Keeps ctx request rs pc =
      let t = (check_relations-gather laws ctx request rs pc).1 in
      subst (Keeps laws pc) (sym t.same) (record {
        direct = λ k g h. sym (t.same_direct k) ∙ h;
        indirect = λ k g h. sym (t.same_indirect k) ∙ h;
      })

  -- A call that caches nothing, and nothing for the relation if it cuts.
  refine_by :
      (q : Relation) (pc pc' : ProjectCache x) (P : Permitted) (K : Type 0) (G : Permitted)
      → Keeps laws pc pc'
      → (K → Forgotten laws q pc')
      → Refines q pc P
      → Refines q pc' (λ direct g. (P direct g × ¬ K) ⊎ G direct g)
  refine_by q pc pc' P K G keeps forgets r true g h =
      inl (r true g (keeps.direct (key q) g h), λ k. cc ((forgets k).0, h))
  refine_by q pc pc' P K G keeps forgets r false g h =
      inl (r false g (keeps.indirect (key q) g h), λ k. cc ((forgets k).1, h))

  -- One call of the cache is one step of the specification.
  step-Refines :
      (q : Relation) (c : Call x) (pc : ProjectCache x) (P : Permitted)
      → IsPlain q
      → Indexed laws pc
      → Refines q pc P
      → Refines q (step x c pc) (spec_step q c pc P)
  unfolding step
  step-Refines q (check ctx request rs) pc P plain h r =
      refine_by q pc _ P ⊥ (λ d g. ⊥) (check-Keeps ctx request rs pc) (λ k. absurd k) r
  step-Refines q (schema_updated s) pc P plain h r =
      let p = (update_cache_with_schema-IsPurged laws s pc).0 in
      refine_by q pc _ P (Unit {0}) (λ d g. ⊥)
        (purged-Keeps laws pc (update_cache_with_schema s pc) p)
        (λ k. (p.no_direct (key q), p.no_indirect (key q))) r
  step-Refines q (schema_loaded s) pc P plain h r =
      refine_by q pc _ P ⊥ (λ d g. ⊥)
        (fields-Keeps laws pc _ (ensure-direct laws s pc) (ensure-indirect laws s pc))
        (λ k. absurd k) r
  step-Refines q (added now rs) pc P plain h r =
      refine_by q pc _ P (Touches rs q) (λ d g. ⊥) (added-Keeps laws now rs pc)
        (λ k. added-Forgotten laws now q rs pc h (IsPlain-IsUnambiguous q plain) k) r
  step-Refines q (deleted rs) pc P plain h r =
      refine_by q pc _ P (Touches rs q) (λ d g. ⊥) (deleted-Keeps laws rs pc)
        (λ k. deleted-Forgotten laws q rs pc h (IsPlain-IsUnambiguous q plain) k) r
  step-Refines q (checked cs) pc P plain h r = λ direct g e.
      elim (update_cache_with_checks-Origin laws cs pc direct (key q) g e) [
        | inl before ↦ inl (r direct g before, λ k. k)
        | inr stored ↦ inr (From-Backed q pc direct g cs plain stored)
      ]
  step-Refines q (tick remote now later) pc P plain h r =
      refine_by q pc _ P
        ((m : Modified) × (remote pc.remote.last_poll_time ≡ changes m) × Reported m q) (λ d g. ⊥)
        (polling-Keeps laws remote now later pc)
        (λ (m, fetched, reported).
          polling-Forgotten laws remote now later m q pc h (IsPlain-IsUnambiguous q plain) fetched
            reported)
        r
  step-Refines q (timer now) pc P plain h r =
      refine_by q pc _ P ((due : ℕ) × (pc.remote.cooldown_timer ≡ some due)) (λ d g. ⊥)
        (on_timer-Keeps laws now pc)
        (λ (due, e).
          let p = (on_timer-IsPurged laws now due pc e).0 in
          (p.no_direct (key q), p.no_indirect (key q)))
        r
  step-Refines q (get_who now r d n) pc P plain h f =
      refine_by q pc _ P ⊥ (λ d g. ⊥) (lookup-Keeps pc _ (get_wca-frame now r d n pc))
        (λ k. absurd k) f
  step-Refines q (set_who now r d n ts) pc P plain h f =
      refine_by q pc _ P ⊥ (λ d g. ⊥) (lookup-Keeps pc _ (set_wca-frame now r d n ts pc))
        (λ k. absurd k) f
  step-Refines q (get_what now t) pc P plain h f =
      refine_by q pc _ P ⊥ (λ d g. ⊥) (lookup-Keeps pc _ (get_wcta-frame now t pc)) (λ k. absurd k)
        f
  step-Refines q (set_what now t rs) pc P plain h f =
      refine_by q pc _ P ⊥ (λ d g. ⊥) (lookup-Keeps pc _ (set_wcta-frame now t rs pc))
        (λ k. absurd k) f
  step-Refines q invalidate pc P plain h f =
      refine_by q pc _ P ⊥ (λ d g. ⊥) (lookup-Keeps pc _ (invalidate-frame pc)) (λ k. absurd k) f

  pub run-Refines :
      (q : Relation) (cs : List (Call x)) (pc : ProjectCache x) (P : Permitted)
      → IsPlain q
      → Indexed laws pc
      → Refines q pc P
      → Refines q (run x cs pc) (spec_run q cs pc P)
  unfolding run spec_run
  run-Refines q [] pc P plain h r = r
  run-Refines q (c ∷ cs) pc P plain h r =
      run-Refines q cs (step x c pc) (spec_step q c pc P) plain (step-Indexed laws c pc h)
        (step-Refines q c pc P plain h r)

  -- A new cache permits nothing.
  new-Refines :
      (settings : Settings) (now : ℕ) (q : Relation) (pc : ProjectCache x)
      → new_project_authz_cache x settings now ≡ some pc
      → Refines q pc (λ direct g. ⊥)
  new-Refines settings now q pc made true g e =
      cc ((new-Forgotten laws settings now q pc made).0, e)
  new-Refines settings now q pc made false g e =
      cc ((new-Forgotten laws settings now q pc made).1, e)

  store_of_cached :
      (q : Relation) (pc : ProjectCache x) (f : Found)
      → cached_grant laws pc q ≡ some f
      → peek (store_of laws f.direct pc) (key q) ≡ some f.grant
  unfolding cached_grant
  store_of_cached q pc f e = elim (Option-cases (peek pc.direct.cached (key q))) [
    | inl miss ↦ elim (Option-cases (peek pc.indirect (key q))) [
      | inl none_eq ↦ absurd (ground arith)
      | inr (g, hit) ↦
          let same : f ≡ record { grant = g; direct = false } = ground arith in rw (same, hit)
    ]
    | inr (g, hit) ↦
        let same : f ≡ record { grant = g; direct = true } = ground arith in rw (same, hit)
  ]

  -- After any history of calls on a new project cache, what is served for a relation without colons
  -- is permitted by the specification: it is the verdict of a grant that a check of the backend gave,
  -- which was about the same resource, target and relation and was cached under the schema that was
  -- loaded then, and since then no write touched the relation, no poll reported it, and neither the
  -- schema nor a timer purged the cache.
  pub answers_follow_history :
      (settings : Settings) (start : ℕ) (pc : ProjectCache x) (cs : List (Call x))
      (ctx : x.cel.Context) (request : RequestContext x.cel) (q : Relation) (c : Check)
      → new_project_authz_cache x settings start ≡ some pc
      → IsPlain q
      → answer laws ctx request (run x cs pc) q ≡ some c
      → (s : Served laws ctx request (run x cs pc) q c) × spec_run q cs pc
          (λ direct g. ⊥)
          s.found.direct
          s.found.grant
  answers_follow_history settings start pc cs ctx request q c made plain e =
      let s = answer-Served laws ctx request (run x cs pc) q c e in
      (
        s,
        run-Refines q cs pc (λ direct g. ⊥) plain (new-Indexed laws settings start pc made)
            (new-Refines settings start q pc made) s.found.direct s.found.grant
            (store_of_cached q (run x cs pc) s.found s.cached),
      )
