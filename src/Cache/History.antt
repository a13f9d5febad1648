-- ===== src/Cache/History.antt =====
-- Any history of calls on one project's cache, timer callbacks and poller ticks among them, in any
-- order: the mutex makes each one step. Every cached direct grant stays findable by the sweeps, so
-- that the promises of the writes and of the poller hold after any history.
pub mod Spec
pub mod Refines
pub mod Spares
pub mod Race
use authzcache.Base.{
  ℕ, ◌≡◌, sym, ◌∙◌, subst, List, [], ◌∷◌, Option, none, some, arith, Text, >>=-eq-some,
}
use authzcache.Sdk.{Relation, Check, Schema, AuthzRelation, Modified}
use authzcache.Cel.{RequestContext}
use authzcache.Direct.{key}
use authzcache.Direct.Eviction.{IsIndexed}
use authzcache.Direct.Sweep.{IsUnambiguous}
use authzcache.Cache.{
  Externals, ExternalLaws, ProjectCache, Settings, new_project_authz_cache, lookup_cache_of,
}
use authzcache.Cache.Checks.{check_relations}
use authzcache.Cache.Checks.Gather.{answer, check_relations-gather, cached_grant}
use authzcache.Cache.Schemas.{update_cache_with_schema, ensure_schema_loaded}
use authzcache.Cache.Schemas.Purge.{update_cache_with_schema-IsPurged, ensure-direct}
use authzcache.Cache.Lookup.{
  get_who_can_access_cached, set_who_can_access_cached, get_what_can_target_access_cached,
  set_what_can_target_access_cached, invalidate_lookup_cache,
}
use authzcache.Cache.Lookup.Frame.{
  LookupOnly, get_wcta-frame, get_wca-frame, set_wca-frame, set_wcta-frame, invalidate-frame,
}
use authzcache.Cache.Updates.{
  update_cache_with_added_relations, update_cache_with_deleted_relations, update_cache_with_checks,
}
use authzcache.Cache.Updates.Invalidation.{
  Touches, Indexed, Forgotten, added-Indexed, deleted-Indexed, added-Forgotten, deleted-Forgotten,
}
use authzcache.Cache.Updates.Admission.{update_cache_with_checks-Indexed}
use authzcache.Cache.Polling.{Fetched, changes, update_cache_with_remote_polling, on_timer}
use authzcache.Cache.Polling.Changes.{Reported}
use authzcache.Cache.Polling.Tick.{polling-Indexed, on_timer-Indexed, polling-Forgotten}

module _ (x : Externals) where
  -- The methods of `ProjectAuthzCache` with their arguments, the poller's tick and the timer.
  pub data Call : Type 0 where
    check : x.cel.Context → RequestContext x.cel → List Relation → Call
    schema_updated : Option Schema → Call
    schema_loaded : Option Schema → Call
    added : ℕ → List Relation → Call
    deleted : List Relation → Call
    checked : List Check → Call
    tick : (ℕ → Fetched) → ℕ → ℕ → Call
    timer : ℕ → Call
    get_who : ℕ → Text → Text → Text → Call
    set_who : ℕ → Text → Text → Text → List Text → Call
    get_what : ℕ → Text → Call
    set_what : ℕ → Text → List AuthzRelation → Call
    invalidate : Call

  unfoldable pub step : Call → ProjectCache x → ProjectCache x
  step (check ctx request rs) pc = (check_relations ctx request rs pc).1
  step (schema_updated s) pc = update_cache_with_schema s pc
  step (schema_loaded s) pc = ensure_schema_loaded s pc
  step (added now rs) pc = update_cache_with_added_relations now rs pc
  step (deleted rs) pc = update_cache_with_deleted_relations rs pc
  step (checked cs) pc = update_cache_with_checks cs pc
  step (tick remote now later) pc = update_cache_with_remote_polling remote now later pc
  step (timer now) pc = on_timer now pc
  step (get_who now r d n) pc = (get_who_can_access_cached now r d n pc).1
  step (set_who now r d n ts) pc = set_who_can_access_cached now r d n ts pc
  step (get_what now t) pc = (get_what_can_target_access_cached now t pc).1
  step (set_what now t rs) pc = set_what_can_target_access_cached now t rs pc
  step invalidate pc = invalidate_lookup_cache pc

  unfoldable pub run : List Call → ProjectCache x → ProjectCache x
  run [] pc = pc
  run (c ∷ cs) pc = run cs (step c pc)

module _ {x : Externals} (laws : ExternalLaws x) where
  pub lookup-Indexed :
      (pc pc' : ProjectCache x) → LookupOnly pc pc' → Indexed laws pc → Indexed laws pc'
  lookup-Indexed pc pc' f h = subst (Indexed laws) (sym f.same) h

  pub check_relations-Indexed :
      (ctx : x.cel.Context) (request : RequestContext x.cel) (rs : List Relation)
      (pc : ProjectCache x)
      → Indexed laws pc
      → Indexed laws (check_relations ctx request rs pc).1
  check_relations-Indexed ctx request rs pc h =
      let t = (check_relations-gather laws ctx request rs pc).1 in
      subst (Indexed laws) (sym t.same) (λ k g e. h k g (sym (t.same_direct k) ∙ e))

  pub ensure-Indexed :
      (s : Option Schema) (pc : ProjectCache x)
      → Indexed laws pc
      → Indexed laws (ensure_schema_loaded s pc)
  ensure-Indexed s pc h = subst (IsIndexed laws.grants) (sym (ensure-direct laws s pc)) h

  -- Every call keeps every cached direct grant findable.
  pub step-Indexed :
      (c : Call x) (pc : ProjectCache x) → Indexed laws pc → Indexed laws (step x c pc)
  unfolding step
  step-Indexed (check ctx request rs) pc h = check_relations-Indexed ctx request rs pc h
  step-Indexed (schema_updated s) pc h =
      λ k g e. absurd (ground (arith, (update_cache_with_schema-IsPurged laws s pc).0.no_direct k))
  step-Indexed (schema_loaded s) pc h = ensure-Indexed s pc h
  step-Indexed (added now rs) pc h = added-Indexed laws now rs pc h
  step-Indexed (deleted rs) pc h = deleted-Indexed laws rs pc h
  step-Indexed (checked cs) pc h = update_cache_with_checks-Indexed laws cs pc h
  step-Indexed (tick remote now later) pc h = polling-Indexed laws remote now later pc h
  step-Indexed (timer now) pc h = on_timer-Indexed laws now pc h
  step-Indexed (get_who now r d n) pc h = lookup-Indexed pc _ (get_wca-frame now r d n pc) h
  step-Indexed (set_who now r d n ts) pc h = lookup-Indexed pc _ (set_wca-frame now r d n ts pc) h
  step-Indexed (get_what now t) pc h = lookup-Indexed pc _ (get_wcta-frame now t pc) h
  step-Indexed (set_what now t rs) pc h = lookup-Indexed pc _ (set_wcta-frame now t rs pc) h
  step-Indexed invalidate pc h = lookup-Indexed pc _ (invalidate-frame pc) h

  pub run-Indexed :
      (cs : List (Call x)) (pc : ProjectCache x) → Indexed laws pc → Indexed laws (run x cs pc)
  unfolding run
  run-Indexed [] pc h = h
  run-Indexed (c ∷ cs) pc h = run-Indexed cs (step x c pc) (step-Indexed c pc h)

  pub new-Indexed :
      (settings : Settings) (now : ℕ) (pc : ProjectCache x)
      → new_project_authz_cache x settings now ≡ some pc
      → Indexed laws pc
  unfolding new_project_authz_cache
  new-Indexed settings now pc e k g hit =
      let (indirect, _, e₁) = >>=-eq-some (x.grants.new settings.indirect_size) _ e in
      let (lookups, _, e₂) = >>=-eq-some (lookup_cache_of x settings) _ e₁ in
      let (direct, built, e₃) = >>=-eq-some (x.grants.new settings.direct_size) _ e₂ in
      absurd (ground (arith, e₃, laws.grants.new_peek settings.direct_size direct k built))

  pub new-Forgotten :
      (settings : Settings) (now : ℕ) (q : Relation) (pc : ProjectCache x)
      → new_project_authz_cache x settings now ≡ some pc
      → Forgotten laws q pc
  unfolding new_project_authz_cache
  new-Forgotten settings now q pc e =
      let (indirect, other, e₁) = >>=-eq-some (x.grants.new settings.indirect_size) _ e in
      let (lookups, _, e₂) = >>=-eq-some (lookup_cache_of x settings) _ e₁ in
      let (direct, built, e₃) = >>=-eq-some (x.grants.new settings.direct_size) _ e₂ in
      (
        ground (arith, e₃, laws.grants.new_peek settings.direct_size direct (key q) built),
        ground (arith, e₃, laws.grants.new_peek settings.indirect_size indirect (key q) other),
      )

  -- After any history of calls on a new project cache every cached direct grant is one that the
  -- sweeps find.
  pub history-Indexed :
      (settings : Settings) (now : ℕ) (pc : ProjectCache x) (cs : List (Call x))
      → new_project_authz_cache x settings now ≡ some pc
      → Indexed laws (run x cs pc)
  history-Indexed settings now pc cs e = run-Indexed cs pc (new-Indexed settings now pc e)

  module _ (ctx : x.cel.Context) (request : RequestContext x.cel) where
    pub answer_of_Forgotten :
        (q : Relation) (pc : ProjectCache x)
        → Forgotten laws q pc
        → answer laws ctx request pc q ≡ none
    unfolding answer cached_grant
    answer_of_Forgotten q pc (d, i) = ground arith

    module _ (settings : Settings) (start : ℕ) (pc : ProjectCache x)
        (made : new_project_authz_cache x settings start ≡ some pc) (cs : List (Call x))
        (q : Relation) (u : IsUnambiguous q) where
      -- After any history of calls on a new project cache, a write of relations leaves no stale
      -- answer: a relation whose key is unambiguous and that shares its resource or its target
      -- with a created or a deleted one is not answered from the cache, for any request.
      pub written_not_served :
          (now : ℕ) (rs : List Relation)
          → Touches rs q
          → (answer laws ctx request (step x (added now rs) (run x cs pc)) q ≡ none)
            × (answer laws ctx request (step x (deleted rs) (run x cs pc)) q ≡ none)
      unfolding step
      written_not_served now rs t =
          let h = history-Indexed settings start pc cs made in
          (
            answer_of_Forgotten q (update_cache_with_added_relations now rs (run x cs pc))
                (added-Forgotten laws now q rs (run x cs pc) h u t),
            answer_of_Forgotten q (update_cache_with_deleted_relations rs (run x cs pc))
                (deleted-Forgotten laws q rs (run x cs pc) h u t),
          )

      -- After any history of calls on a new project cache, a poll that succeeds leaves no stale
      -- answer: a relation whose key is unambiguous and whose resource or target the backend
      -- reports as changed since the last poll time is not answered from the cache, and no such
      -- relation is if the schema changed.
      pub polled_not_served :
          (remote : ℕ → Fetched) (now later : ℕ) (m : Modified)
          → remote (run x cs pc).remote.last_poll_time ≡ changes m
          → Reported m q
          → answer laws ctx request (step x (tick remote now later) (run x cs pc)) q ≡ none
      unfolding step
      polled_not_served remote now later m fetched r =
          answer_of_Forgotten q (update_cache_with_remote_polling remote now later (run x cs pc)) (
            polling-Forgotten laws remote now later m q (run x cs pc)
              (history-Indexed settings start pc cs made) u fetched r)
