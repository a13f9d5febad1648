-- ===== src/Tests/PollingTests.antt =====
-- Failed polls at concrete inputs.
use authzcache.Base.{◌≡◌, refl, inl, [], ◌∷◌, none, some, ◌+◌}
use authzcache.Sdk.{GoError, descope_error, other_error}
use authzcache.Cache.{ProjectCache}
use authzcache.Cache.Schemas.Loaded.{Loaded}
use authzcache.Cache.Schemas.Purge.{IsPurged}
use authzcache.Cache.Polling.{
  get_modified_limit_reached, is_too_many_modified_relations, on_error, on_timer,
}
use authzcache.Cache.Polling.Cooldown.{
  on_errors, on_errors-first, on_error-IsPurged, on_timer-IsPurged,
}
use authzcache.Tests.Concrete.{x, laws, doc, fresh, conditional_cache}

abbrev timeout : GoError
timeout = other_error doc

abbrev too_many : GoError
too_many = descope_error (record {
  code = get_modified_limit_reached;
  description = [];
  message = [];
  status = none;
  retry_after = none;
})

on_errors-first_example : on_errors ((30, timeout) ∷ (50, timeout) ∷ []) fresh ≡ record fresh {
  remote = record fresh.remote { cooldown_timer = some (30 + fresh.remote.cooldown_window) };
}
unfolding is_too_many_modified_relations
on_errors-first_example =
    on_errors-first 30 timeout ((50, timeout) ∷ []) fresh (refl, (refl, tt)) refl refl

-- An error while a timer runs.
abbrev waiting : ProjectCache x
waiting = record conditional_cache {
  remote = record conditional_cache.remote { cooldown_timer = some 100 };
}

on_error-IsPurged_example :
    IsPurged laws (on_error 40 too_many waiting)
    × Loaded none (on_error 40 too_many waiting)
    × ((on_error 40 too_many waiting).remote
        ≡ record waiting.remote { cooldown_timer = none; last_poll_time = 40 })
unfolding is_too_many_modified_relations
on_error-IsPurged_example = on_error-IsPurged laws 40 too_many waiting (inl refl)

on_timer-IsPurged_example :
    IsPurged laws (on_timer 100 waiting)
    × ((on_timer 100 waiting).schema ≡ none)
    × ((on_timer 100 waiting).remote
        ≡ record waiting.remote { cooldown_timer = none; last_poll_time = 100 })
on_timer-IsPurged_example = on_timer-IsPurged laws 100 100 waiting refl
