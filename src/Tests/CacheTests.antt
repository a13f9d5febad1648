-- ===== src/Tests/CacheTests.antt =====
-- The cache of a project at concrete inputs: answers, admission, and any history of calls.
use authzcache.Base.{
  ◌≡◌, refl, arith, inl, inr, ◌⊎◌, true, false, List, [], ◌∷◌, none, some, text_eq, nat_eq,
}
use authzcache.Base.Map.{lookup, insert}
use authzcache.Sdk.{Condition, Check, Schema, Modified, no_info}
use authzcache.Direct.Eviction.{peek-add_direct_relation}
use authzcache.Direct.{CachedGrant, key}
use authzcache.Direct.Key.{IsPlain-IsUnambiguous}
use authzcache.Direct.Sweep.{IsUnambiguous}
use authzcache.Cel.{eval, bind_params}
use authzcache.Cache.Checks.{
  check_relations, serve_grant, cert_matches, conditions_eval_to, evaluates_to,
}
use authzcache.Cache.Checks.Batch.{hits, missing, numbered, answered_alone}
use authzcache.Cache.Checks.Gather.{answer, cached_grant, Touched}
use authzcache.Cache.Checks.Sound.{Served, answer-Served}
use authzcache.Cache.Schemas.{update_cache_with_schema}
use authzcache.Cache.Schemas.Purge.{IsPurged, update_cache_with_schema-IsPurged}
use authzcache.Cache.Updates.{
  grant_of, store_check, store_grant, add_indirect_relation, update_cache_with_checks,
}
use authzcache.Cache.Updates.Admission.{
  Admitted, From, store_of, grant_of-Admitted, update_cache_with_checks-Origin,
}
use authzcache.Cache.Schemas.Loaded.{Loaded}
use authzcache.Cache.Updates.Hits.{own_verdict, stored_served}
use authzcache.Cache.Updates.Invalidation.{Indexed, Touches}
use authzcache.Cache.Polling.{changes}
use authzcache.Cache.History.{
  Call, step, run, history-Indexed, written_not_served, polled_not_served,
}
use authzcache.Cache.History.Spec.{spec_run}
use authzcache.Cache.History.Refines.{answers_follow_history}
use authzcache.Cache.{ProjectCache}
use authzcache.Cache.History.Race.{late_check_until_poll}
use authzcache.Cache.History.Spares.{untouched_still_served}
use authzcache.Tests.Concrete.{
  folder, x, laws, settings, doc, user, group, viewer, relate, allow, owns, fresh, made,
  direct_check, conditional_check, conditional_cache, request, run_program,
}

owns-IsUnambiguous : IsUnambiguous owns
owns-IsUnambiguous =
    IsPlain-IsUnambiguous owns (record { resource = refl; target = refl; relation = refl })

abbrev calls : List (Call x)
calls =
    Call.checked (direct_check owns ∷ []) ∷ Call.check tt request (owns ∷ []) ∷ Call.timer 9 ∷ []

history-Indexed_example : Indexed laws (run x calls fresh)
history-Indexed_example = history-Indexed laws settings 5 fresh calls made

written_not_served_example :
    (answer laws tt request
        (step x (Call.added 7 (relate doc viewer group ∷ [])) (run x calls fresh))
        owns
      ≡ none)
    × (answer laws tt request
          (step x (Call.deleted (relate doc viewer group ∷ [])) (run x calls fresh))
          owns
        ≡ none)
written_not_served_example =
    written_not_served laws tt request settings 5 fresh made calls owns owns-IsUnambiguous 7
      (relate doc viewer group ∷ []) (inl (inl refl))

abbrev modified : Modified
modified = record { resources = doc ∷ []; targets = []; schema_changed = false }

polled_not_served_example :
    answer laws tt request
      (step x (Call.tick (λ since. changes modified) 20 21) (run x calls fresh))
      owns
    ≡ none
polled_not_served_example =
    polled_not_served laws tt request settings 5 fresh made calls owns owns-IsUnambiguous
      (λ since. changes modified) 20 21 modified refl (inr (inl refl))

answer-Served_example :
    Served laws tt request conditional_cache owns
      (record { allowed = true; relation = owns; info = record no_info { conditional = true } })
unfolding answer cached_grant serve_grant cert_matches conditions_eval_to evaluates_to eval
    bind_params run_program lookup insert key
answer-Served_example = answer-Served laws tt request conditional_cache owns _ refl

answered_alone_example :
    let ask = answer laws tt request conditional_cache in
    let rs = owns ∷ relate doc viewer user ∷ [] in
    ((check_relations tt request rs conditional_cache).0 ≡ record {
      checks = hits ask rs;
      unchecked = missing ask rs;
      index_to_check = numbered ask 0 rs;
    })
    × Touched laws conditional_cache (check_relations tt request rs conditional_cache).1
answered_alone_example =
    answered_alone laws tt request (owns ∷ relate doc viewer user ∷ []) conditional_cache

grant_of-Admitted_example : Admitted (direct_check owns) fresh allow
unfolding grant_of
grant_of-Admitted_example = grant_of-Admitted (direct_check owns) fresh allow refl

-- a check by a derived relation
abbrev derived_check : Check
derived_check = record { allowed = true; relation = owns; info = no_info }

update_cache_with_checks-Origin_example :
    (laws.grants.peek (store_of laws false fresh) (key owns) ≡ some allow)
    ⊎ From fresh false (key owns) allow (derived_check ∷ [])
unfolding update_cache_with_checks store_check store_grant add_indirect_relation grant_of lookup key
update_cache_with_checks-Origin_example =
    update_cache_with_checks-Origin laws (derived_check ∷ []) fresh false (key owns) allow refl

abbrev condition : Condition
condition = record { id = 7; name = viewer; checked_expr = viewer; params = [] }

abbrev schema : Schema
schema = record { dsl = doc; version = viewer; conditions = condition ∷ [] }

update_cache_with_schema-IsPurged_example :
    IsPurged laws (update_cache_with_schema (some schema) conditional_cache)
    × Loaded (some schema) (update_cache_with_schema (some schema) conditional_cache)
update_cache_with_schema-IsPurged_example =
    update_cache_with_schema-IsPurged laws (some schema) conditional_cache

abbrev certificate : CachedGrant
certificate = record {
  allowed = true;
  cond = some (record { true_conds = 7 ∷ []; false_conds = [] });
}

stored_served_example :
    answer laws tt request
      (store_check (conditional_check (relate doc viewer group)) conditional_cache)
      (relate doc viewer group)
    ≡ some (own_verdict (conditional_check (relate doc viewer group)) certificate.cond)
unfolding grant_of eval bind_params run_program lookup insert
stored_served_example =
    stored_served laws tt request (conditional_check (relate doc viewer group)) certificate
      conditional_cache refl (inl refl) (refl, ((_, refl, refl), tt), tt)

abbrev kept_calls : List (Call x)
kept_calls = Call.checked (derived_check ∷ []) ∷ Call.checked (derived_check ∷ []) ∷ []

answers_follow_history_example :
    (s : Served laws tt request (run x kept_calls fresh) owns derived_check) × spec_run owns
      kept_calls fresh
      (λ direct g. ⊥)
      s.found.direct
      s.found.grant
unfolding run step answer cached_grant serve_grant key update_cache_with_checks store_check
    store_grant add_indirect_relation grant_of lookup
answers_follow_history_example =
    answers_follow_history laws settings 5 fresh kept_calls tt request owns derived_check made
      (record { resource = refl; target = refl; relation = refl }) refl

-- a direct grant, and writes of a relation with other names
abbrev granted : List (Call x)
granted = Call.checked (direct_check owns ∷ []) ∷ []

untouched : ¬ Touches (relate folder viewer group ∷ []) owns
untouched (inl (inl e)) = absurd (ground arith)
untouched (inl (inr e)) = absurd (ground arith)
untouched (inr e) = elim e [ ]

granted_cached : laws.grants.peek (run x granted fresh).direct.cached (key owns) ≡ some allow
unfolding run step update_cache_with_checks store_check store_grant grant_of key
granted_cached = peek-add_direct_relation laws.grants owns allow fresh.direct (key owns)

untouched_still_served_example :
    (answer laws tt request
        (step x (Call.added 7 (relate folder viewer group ∷ [])) (run x granted fresh))
        owns
      ≡ answer laws tt request (run x granted fresh) owns)
    × (answer laws tt request
          (step x (Call.deleted (relate folder viewer group ∷ [])) (run x granted fresh))
          owns
        ≡ answer laws tt request (run x granted fresh) owns)
untouched_still_served_example =
    untouched_still_served laws tt request settings 5 fresh granted owns allow 7
      (relate folder viewer group ∷ []) made owns-IsUnambiguous untouched granted_cached

-- the check was allowed before the deletion of its relation
abbrev more : List (Call x)
more = Call.check tt request (owns ∷ []) ∷ Call.timer 15 ∷ []

abbrev late : ProjectCache x
late =
    step x (Call.checked (direct_check owns ∷ []))
      (step x (Call.deleted (owns ∷ [])) (run x granted fresh))

late_check_until_poll_example :
    (answer laws tt request (step x (Call.deleted (owns ∷ [])) (run x granted fresh)) owns ≡ none)
    × (answer laws tt request late owns ≡ some (own_verdict (direct_check owns) none))
    × (answer laws tt request
          (step x (Call.tick (λ since. changes modified) 20 21) (run x more late))
          owns
        ≡ none)
unfolding grant_of
late_check_until_poll_example =
    late_check_until_poll laws tt request settings 5 fresh granted more (owns ∷ [])
      (direct_check owns) allow (λ since. changes modified) 20 21 modified made (inl (inl refl))
      owns-IsUnambiguous refl refl tt refl (inr (inl refl))
