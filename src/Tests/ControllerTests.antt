-- ===== src/Tests/ControllerTests.antt =====
-- The controller, the error conversion and the configuration at concrete inputs, over the backend of
-- the service's tests.
use authzcache.Base.{◌≡◌, refl, arith, inl, Bool, List, [], ◌∷◌, true, some, text_eq, Text, ◌*◌}
use authzcache.Base.Int.{pos, negsuc}
use authzcache.Base.Decimal.{itoa, emit_digits}
use authzcache.Base.Map.{lookup}
use authzcache.Sdk.{DescopeError}
use authzcache.Direct.Key.{IsPlain-IsUnambiguous}
use authzcache.Cache.{new_project_authz_cache, second, ProjectCache}
use authzcache.Cache.Checks.Gather.{answer}
use authzcache.Cache.History.{run, history-Indexed}
use authzcache.Config.{
  ConfigKey, Environment, settings_of, get_metrics_report_interval_in_seconds,
  get_gateway_write_timeout_in_seconds, report_interval, gateway_write_timeout,
}
use authzcache.Config.Bounds.{Within, Bounded, settings_of-Bounded}
use authzcache.Errors.{
  service_error_from_sdk_error, set_retry_after, retry_after_of, error_type,
  error_handler_with_retry_after,
}
use authzcache.Errors.RetryAfter.{Relayed, retry_after-Relayed}
use authzcache.Services.Projects.{get_or_create_project_cache, load_project}
use authzcache.Controllers.{
  Tuple, Messages, extra_context, check_tuples, create_tuples, delete_tuples, relations_from_tuples,
}
use authzcache.Services.Backend.{replied}
use authzcache.Services.Check.Merge.{sdk_reply}
use authzcache.Controllers.Verdicts.{Verdicts, check_tuples-Verdicts}
use authzcache.Controllers.Writes.{Written, tuples-Written}
use authzcache.Tests.ListLru.{new_list}
use authzcache.Tests.Concrete.{
  x, laws, doc, user, group, owner, viewer, kind, owns, fresh, made, request, settings,
}
use authzcache.Tests.ServiceTests.{backend, honest, service, project, serving, serving_service}

-- nothing is configured but a polling interval of one second and a write timeout of minus five
abbrev env : Environment
env = record {
  int_or_provided = λ key default. elim key [
    | ConfigKey.remote_polling_interval_in_millis ↦ pos 1000
    | ConfigKey.gateway_write_timeout_in_seconds ↦ negsuc 4
    | _ ↦ default
  ];
  bool_or_provided = λ key default. default;
}

abbrev configured : ProjectCache x
configured = record fresh {
  direct = record fresh.direct { cached = record { cap = 1_000_000; items = [] } };
  indirect = record { cap = 1_000_000; items = [] };
  lookup_cache = some (record { cap = 10_000; items = [] });
  lookup_max_result = pos 1000;
  remote = record fresh.remote { cooldown_window = 0 };
}

settings_of-Bounded_example :
    Bounded configured
    × Within (10 * second) (report_interval env)
    × Within second (gateway_write_timeout env)
unfolding new_project_authz_cache new_list settings_of get_metrics_report_interval_in_seconds
    get_gateway_write_timeout_in_seconds
settings_of-Bounded_example = settings_of-Bounded env 5 configured refl (record {
  polling = omega arith;
  evaluation = omega arith;
  lifetime = omega arith;
  reports = omega arith;
  writing = omega arith;
})

-- a rate limit with a delay of thirty seconds
abbrev limited : DescopeError
limited = record {
  code = b'9' ∷ b'9' ∷ b'9' ∷ b'9' ∷ [];
  description = doc;
  message = doc;
  status = some (pos 429);
  retry_after = some (pos 30);
}

abbrev error_text : DescopeError → Text
error_text e = e.message

-- the writer is the list of the values that were set
retry_after-Relayed_example :
    (left : List Text) × Relayed ◌∷◌ limited [] left
    × (error_handler_with_retry_after ◌∷◌ (λ e w. w) (some ((b'3' ∷ b'0' ∷ []) ∷ [])) tt [] ≡ left)
unfolding service_error_from_sdk_error set_retry_after retry_after_of error_type itoa emit_digits
retry_after-Relayed_example =
    retry_after-Relayed ◌∷◌ limited [] error_text ((b'3' ∷ b'0' ∷ []) ∷ []) (λ e w. w) tt refl

abbrev messages : Messages x
messages = record { Struct = Bool; as_map = λ b. (kind, b) ∷ []; error_text = error_text }

abbrev tuple : Text → Text → Text → Tuple
tuple resource relation target = record {
  resource = resource;
  resource_type = kind;
  relation = relation;
  target = target;
  target_type = kind;
}

-- the first tuple is answered from the cache, for the context of the request, the second is not
check_tuples-Verdicts_example :
    Verdicts messages
      (answer laws tt request serving.cache)
      (sdk_reply laws backend honest tt tt request 2)
      (tuple doc owner user ∷ tuple doc viewer group ∷ [])
      (check_tuples messages backend tt
        (tuple doc owner user ∷ tuple doc viewer group ∷ [])
        (some true)
        serving_service).0
unfolding get_or_create_project_cache load_project lookup extra_context
check_tuples-Verdicts_example =
    check_tuples-Verdicts messages laws backend honest tt
      (tuple doc owner user ∷ tuple doc viewer group ∷ []) (some true) serving serving_service
      (record serving_service { world = 2 }) refl

tuples-Written_example :
    Written messages laws backend kind project owns
      (replied tt)
      (create_tuples messages backend tt (tuple doc viewer group ∷ []) service)
    × Written messages laws backend kind project owns
        (replied tt)
        (delete_tuples messages backend tt (tuple doc viewer group ∷ []) service)
unfolding lookup run relations_from_tuples
tuples-Written_example =
    tuples-Written messages laws backend tt project service (tuple doc viewer group ∷ []) owns refl
      (history-Indexed laws settings 5 fresh [] made)
      (IsPlain-IsUnambiguous owns (record { resource = refl; target = refl; relation = refl }))
      (inl (inl refl))
