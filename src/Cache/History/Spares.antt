-- ===== src/Cache/History/Spares.antt =====
-- What a history leaves alone: a write removes no direct grant of a relation that it does not touch.
use mathlib.Core.Path.{ap₂}
use authzcache.Base.Map.{Map}
use authzcache.Base.{
  ℕ, ◌≡◌, refl, sym, ◌∙◌, ap, subst, true, List, [], ◌∷◌, Option, some, inl, inr, arith, text_eq,
  >>=-eq-some,
}
use authzcache.Sdk.{Relation, Check}
use authzcache.Cel.{CompiledCondition, RequestContext}
use authzcache.Direct.{
  CachedGrant, DirectCache, key, remove_direct_relations_by_resource_and_target,
}
use authzcache.Direct.Both.{empty_direct}
use authzcache.Direct.Sweep.{IsUnambiguous}
use authzcache.Direct.Precise.{
  Trace, aged, emptied, IsPrecise, Trace-IsPrecise, both_spares, both-Trace,
}
use authzcache.Cache.{
  Externals, ExternalLaws, ProjectCache, Settings, new_project_authz_cache, lookup_cache_of,
}
use authzcache.Cache.Checks.{Found, serve_grant, cert_matches, conditions_eval_to, evaluates_to}
use authzcache.Cache.Checks.Gather.{answer, cached_grant, check_relations-gather}
use authzcache.Cache.Schemas.{update_cache_with_schema}
use authzcache.Cache.Schemas.Purge.{update_cache_with_schema-IsPurged, ensure-direct}
use authzcache.Cache.Lookup.Frame.{
  LookupOnly, get_wcta-frame, get_wca-frame, set_wca-frame, set_wcta-frame, invalidate-frame,
}
use authzcache.Cache.Updates.Invalidation.{Touches, sweep_all}
use authzcache.Cache.Updates.{
  update_cache_with_added_relations, update_cache_with_deleted_relations,
}
use authzcache.Cache.Updates.Trace.{
  added-sweeps, deleted-sweeps, added-conditions, deleted-conditions, added-Trace, deleted-Trace,
  checked-Trace,
}
use authzcache.Cache.Polling.Trace.{purged-Trace, polling-Trace, on_timer-Trace}
use authzcache.Cache.History.{
  Call, check, schema_updated, schema_loaded, added, deleted, checked, tick, timer, get_who,
  set_who, get_what, set_what, invalidate, step, run,
}

module _ {x : Externals} (laws : ExternalLaws x) where
  open laws.grants use {peek}

  lookup-Trace : (pc pc' : ProjectCache x) → LookupOnly pc pc' → Trace pc.direct pc'.direct
  lookup-Trace pc pc' f = subst (λ s. Trace pc.direct s.direct) (sym f.same) (aged refl refl)

  -- What any call does to the cache of direct grants.
  step-Trace : (c : Call x) (pc : ProjectCache x) → Trace pc.direct (step x c pc).direct
  unfolding step
  step-Trace (check ctx request rs) pc =
      let t = (check_relations-gather laws ctx request rs pc).1 in
      subst (λ s. Trace pc.direct s.direct) (sym t.same) (aged refl refl)
  step-Trace (schema_updated s) pc =
      purged-Trace laws pc.direct (update_cache_with_schema s pc)
        (update_cache_with_schema-IsPurged laws s pc).0
  step-Trace (schema_loaded s) pc =
      subst (Trace pc.direct) (sym (ensure-direct laws s pc)) (aged refl refl)
  step-Trace (added now rs) pc = added-Trace laws now rs pc
  step-Trace (deleted rs) pc = deleted-Trace laws rs pc
  step-Trace (checked cs) pc = checked-Trace laws cs pc
  step-Trace (tick remote now later) pc = polling-Trace laws remote now later pc
  step-Trace (timer now) pc = on_timer-Trace laws now pc
  step-Trace (get_who now r d n) pc = lookup-Trace pc _ (get_wca-frame now r d n pc)
  step-Trace (set_who now r d n ts) pc = lookup-Trace pc _ (set_wca-frame now r d n ts pc)
  step-Trace (get_what now t) pc = lookup-Trace pc _ (get_wcta-frame now t pc)
  step-Trace (set_what now t rs) pc = lookup-Trace pc _ (set_wcta-frame now t rs pc)
  step-Trace invalidate pc = lookup-Trace pc _ (invalidate-frame pc)

  run-IsPrecise :
      (cs : List (Call x)) (pc : ProjectCache x)
      → IsPrecise pc.direct
      → IsPrecise (run x cs pc).direct
  unfolding run
  run-IsPrecise [] pc p = p
  run-IsPrecise (c ∷ cs) pc p =
      run-IsPrecise cs (step x c pc)
        (Trace-IsPrecise pc.direct (step x c pc).direct (step-Trace c pc) p)

  new-IsPrecise :
      (settings : Settings) (now : ℕ) (pc : ProjectCache x)
      → new_project_authz_cache x settings now ≡ some pc
      → IsPrecise pc.direct
  unfolding new_project_authz_cache
  new-IsPrecise settings now pc e =
      let (indirect, _, e₁) = >>=-eq-some (x.grants.new settings.indirect_size) _ e in
      let (lookups, _, e₂) = >>=-eq-some (lookup_cache_of x settings) _ e₁ in
      let (direct, built, e₃) = >>=-eq-some (x.grants.new settings.direct_size) _ e₂ in
      Trace-IsPrecise (empty_direct x.grants direct) pc.direct
        (emptied (ground (arith, e₃)) (ground (arith, e₃)))
        (record { by_resource = tt; by_target = tt })

  sweep_all_spares :
      (rs : List Relation) (q : Relation) (d : DirectCache x.grants)
      → IsPrecise d
      → IsUnambiguous q
      → ¬ Touches rs q
      → peek (sweep_all laws rs d).cached (key q) ≡ peek d.cached (key q)
  unfolding sweep_all
  sweep_all_spares [] q d p u t = refl
  sweep_all_spares (r ∷ rs) q d p u t =
      let swept = remove_direct_relations_by_resource_and_target r d in
      sweep_all_spares rs q swept (Trace-IsPrecise d swept (both-Trace laws.grants r d) p) u
        (λ later. t (inr later))
      ∙ both_spares laws.grants r q d p u (λ e. t (inl (inl e))) (λ e. t (inl (inr e)))

  -- the cached direct grant of a relation that a write does not touch
  added_spares :
      (now : ℕ) (rs : List Relation) (q : Relation) (pc : ProjectCache x)
      → IsPrecise pc.direct
      → IsUnambiguous q
      → ¬ Touches rs q
      → peek (update_cache_with_added_relations now rs pc).direct.cached (key q)
        ≡ peek pc.direct.cached (key q)
  added_spares now rs q pc p u t =
      ap (λ d. peek d.cached (key q)) (added-sweeps laws now rs pc)
      ∙ sweep_all_spares rs q pc.direct p u t

  deleted_spares :
      (rs : List Relation) (q : Relation) (pc : ProjectCache x)
      → IsPrecise pc.direct
      → IsUnambiguous q
      → ¬ Touches rs q
      → peek (update_cache_with_deleted_relations rs pc).direct.cached (key q)
        ≡ peek pc.direct.cached (key q)
  deleted_spares rs q pc p u t =
      ap (λ d. peek d.cached (key q)) (deleted-sweeps laws rs pc)
      ∙ sweep_all_spares rs q pc.direct p u t

  module _ (ctx : x.cel.Context) (request : RequestContext x.cel) where
    found_direct :
        (q : Relation) (g : CachedGrant) (pc : ProjectCache x)
        → peek pc.direct.cached (key q) ≡ some g
        → cached_grant laws pc q ≡ some (record { grant = g; direct = true })
    unfolding cached_grant
    found_direct q g pc e = ground arith

    answered_by :
        (q : Relation) (f : Found) (pc : ProjectCache x)
        → cached_grant laws pc q ≡ some f
        → answer laws ctx request pc q ≡ serve_grant ctx request pc q f
    unfolding answer
    answered_by q f pc e = ground (arith, e)

    -- An answer from the direct grants depends on the grant, the compiled conditions and the time
    -- that they are given.
    answer_of_direct :
        (q : Relation) (g : CachedGrant) (pc pc' : ProjectCache x)
        → peek pc.direct.cached (key q) ≡ some g
        → peek pc'.direct.cached (key q) ≡ some g
        → pc'.compiled ≡ pc.compiled
        → pc'.cel_timeout ≡ pc.cel_timeout
        → answer laws ctx request pc' q ≡ answer laws ctx request pc q
    unfolding answer cached_grant serve_grant cert_matches conditions_eval_to evaluates_to
    answer_of_direct q g pc pc' e e' c t =
        let f : Found = record { grant = g; direct = true } in
        let asked : Map ℕ (CompiledCondition x.cel) → ℕ → Option Check =
          λ m t. serve_grant ctx request (record pc { compiled = m; cel_timeout = t }) q f in
        let same : asked pc'.compiled pc'.cel_timeout ≡ asked pc.compiled pc.cel_timeout =
          ap₂ asked c t in
        answered_by q f pc' (found_direct q g pc' e')
        ∙ same
        ∙ sym (answered_by q f pc (found_direct q g pc e))

    -- After any history of calls on a new project cache, a write of relations does not cost an answer
    -- that it cannot change: what is answered from a cached direct grant, for a relation whose key is
    -- unambiguous and that shares neither its resource nor its target with a created or a deleted
    -- one, is answered the same, for any request.
    pub untouched_still_served :
        (settings : Settings) (start : ℕ) (pc : ProjectCache x) (cs : List (Call x)) (q : Relation)
        (g : CachedGrant) (now : ℕ) (rs : List Relation)
        → new_project_authz_cache x settings start ≡ some pc
        → IsUnambiguous q
        → ¬ Touches rs q
        → peek (run x cs pc).direct.cached (key q) ≡ some g
        → (answer laws ctx request (step x (added now rs) (run x cs pc)) q
            ≡ answer laws ctx request (run x cs pc) q)
          × (answer laws ctx request (step x (deleted rs) (run x cs pc)) q
              ≡ answer laws ctx request (run x cs pc) q)
    unfolding step
    untouched_still_served settings start pc cs q g now rs made u t e =
        let before = run x cs pc in
        let p = run-IsPrecise cs pc (new-IsPrecise settings start pc made) in
        let (c, l) = added-conditions laws now rs before in
        let (c', l') = deleted-conditions laws rs before in
        (
          answer_of_direct q g before (update_cache_with_added_relations now rs before) e
              (added_spares now rs q before p u t ∙ e) c l,
          answer_of_direct q g before (update_cache_with_deleted_relations rs before) e
              (deleted_spares rs q before p u t ∙ e) c' l',
        )
