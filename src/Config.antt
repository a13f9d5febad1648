-- ===== src/Config.antt =====
-- internal/config/config.go: the getters of the configuration, and the values that the project caches,
-- the metrics reporter and the HTTP gateway are made with.
pub mod Bounds
use authzcache.Base.{ℕ, ◌*◌, Bool, true, false, if◌then◌else◌}
use authzcache.Base.Int.{ℤ, pos, pos_part, ltb_ℤ, max_ℤ}
use authzcache.Cache.{Settings, second, duration}

-- The `ConfigKey…` constants, which are different strings, and the library's `ConfigKeyHTTPWriteTimeout`.
pub data ConfigKey : Type 0 where
  direct_relation_cache_size_per_project : ConfigKey
  indirect_relation_cache_size_per_project : ConfigKey
  remote_polling_interval_in_millis : ConfigKey
  purge_cooldown_window_in_minutes : ConfigKey
  cel_eval_timeout_in_millis : ConfigKey
  sdk_debug_log : ConfigKey
  lookup_cache_enabled : ConfigKey
  lookup_cache_size_per_project : ConfigKey
  lookup_cache_ttl_in_seconds : ConfigKey
  lookup_cache_max_result_size : ConfigKey
  metrics_report_enabled : ConfigKey
  metrics_report_interval_in_seconds : ConfigKey
  gateway_write_timeout_in_seconds : ConfigKey
  http_write_timeout : ConfigKey

-- The library's getters, `GetIntOrProvidedLocal` and `GetBoolOrProvidedLocal`: the value of a key, or
-- the one that is given where the key has none.
pub record Environment : Type 0 where
  pub int_or_provided : ConfigKey → ℤ → ℤ
  pub bool_or_provided : ConfigKey → Bool → Bool

-- the two tests of `GetGatewayWriteTimeoutInSeconds`
unfoldable pub first_positive : ℤ → ℤ → ℤ → ℤ
first_positive own shared default =
    if ltb_ℤ (pos 0) own then own else if ltb_ℤ (pos 0) shared then shared else default

module _ (env : Environment) where
  unfoldable pub get_direct_relation_cache_size_per_project : ℤ
  get_direct_relation_cache_size_per_project =
      env.int_or_provided direct_relation_cache_size_per_project (pos 1_000_000)

  unfoldable pub get_indirect_relation_cache_size_per_project : ℤ
  get_indirect_relation_cache_size_per_project =
      env.int_or_provided indirect_relation_cache_size_per_project (pos 1_000_000)

  unfoldable pub get_remote_polling_interval_in_millis : ℤ
  get_remote_polling_interval_in_millis =
      max_ℤ (pos 15_000) (env.int_or_provided remote_polling_interval_in_millis (pos 15_000))

  unfoldable pub get_cel_eval_timeout_in_millis : ℤ
  get_cel_eval_timeout_in_millis =
      max_ℤ (pos 1) (env.int_or_provided cel_eval_timeout_in_millis (pos 1000))

  unfoldable pub get_sdk_debug_log : Bool
  get_sdk_debug_log = env.bool_or_provided sdk_debug_log false

  unfoldable pub get_purge_cooldown_window_in_minutes : ℤ
  get_purge_cooldown_window_in_minutes =
      max_ℤ (pos 0) (env.int_or_provided purge_cooldown_window_in_minutes (pos 0))

  unfoldable pub get_lookup_cache_enabled : Bool
  get_lookup_cache_enabled = env.bool_or_provided lookup_cache_enabled true

  unfoldable pub get_lookup_cache_size_per_project : ℤ
  get_lookup_cache_size_per_project = env.int_or_provided lookup_cache_size_per_project (pos 10_000)

  unfoldable pub get_lookup_cache_ttl_in_seconds : ℤ
  get_lookup_cache_ttl_in_seconds =
      max_ℤ (pos 1) (env.int_or_provided lookup_cache_ttl_in_seconds (pos 60))

  unfoldable pub get_lookup_cache_max_result_size : ℤ
  get_lookup_cache_max_result_size = env.int_or_provided lookup_cache_max_result_size (pos 1000)

  unfoldable pub get_metrics_report_enabled : Bool
  get_metrics_report_enabled = env.bool_or_provided metrics_report_enabled true

  unfoldable pub get_metrics_report_interval_in_seconds : ℤ
  get_metrics_report_interval_in_seconds =
      max_ℤ (pos 10) (env.int_or_provided metrics_report_interval_in_seconds (pos 60))

  -- the cache's own key first, then the shared one, then 30
  unfoldable pub get_gateway_write_timeout_in_seconds : ℤ
  unfolding first_positive
  get_gateway_write_timeout_in_seconds =
      first_positive (env.int_or_provided gateway_write_timeout_in_seconds (pos 0))
        (env.int_or_provided http_write_timeout (pos 0)) (pos 30)

  -- What `NewProjectAuthzCache` reads. The values that go into a duration are not negative.
  unfoldable pub settings_of : Settings
  unfolding get_direct_relation_cache_size_per_project get_indirect_relation_cache_size_per_project
      get_remote_polling_interval_in_millis get_purge_cooldown_window_in_minutes
      get_cel_eval_timeout_in_millis get_lookup_cache_enabled get_lookup_cache_size_per_project
      get_lookup_cache_ttl_in_seconds get_lookup_cache_max_result_size
  settings_of = record {
    direct_size = get_direct_relation_cache_size_per_project;
    indirect_size = get_indirect_relation_cache_size_per_project;
    polling_interval_ms = pos_part get_remote_polling_interval_in_millis;
    cooldown_window_minutes = pos_part get_purge_cooldown_window_in_minutes;
    cel_timeout_ms = pos_part get_cel_eval_timeout_in_millis;
    lookup_enabled = get_lookup_cache_enabled;
    lookup_size = get_lookup_cache_size_per_project;
    lookup_ttl_seconds = pos_part get_lookup_cache_ttl_in_seconds;
    lookup_max_result = get_lookup_cache_max_result_size;
  }

  -- `setGatewayWriteTimeout` (cmd/authzcache/main.go): `srv.WriteTimeout`, in nanoseconds
  unfoldable pub gateway_write_timeout : ℕ
  unfolding get_gateway_write_timeout_in_seconds
  gateway_write_timeout = duration second (pos_part get_gateway_write_timeout_in_seconds)

  -- the interval of the metrics reporter's ticker (`NewReporter`), in nanoseconds
  unfoldable pub report_interval : ℕ
  unfolding get_metrics_report_interval_in_seconds
  report_interval = duration second (pos_part get_metrics_report_interval_in_seconds)
