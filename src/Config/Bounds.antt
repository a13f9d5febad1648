-- ===== src/Config/Bounds.antt =====
-- The least values that the configuration lets through, whatever the environment says.
use authzcache.Base.{ℕ, zero, suc, subst, sym, ◌^◌, ◌<◌, ◌*◌, ◌≤◌, ◌≡◌, some, arith, >>=-eq-some}
use authzcache.Base.Int.{ℤ, pos, negsuc, pos_part, max_ℤ}
use authzcache.Cache.{
  Externals, ProjectCache, Settings, new_project_authz_cache, millisecond, second, duration,
  lookup_cache_of,
}
use authzcache.Config.{
  Environment, get_remote_polling_interval_in_millis, get_cel_eval_timeout_in_millis,
  get_lookup_cache_ttl_in_seconds, get_gateway_write_timeout_in_seconds,
  get_metrics_report_interval_in_seconds, settings_of, gateway_write_timeout, report_interval,
  first_positive, remote_polling_interval_in_millis, cel_eval_timeout_in_millis,
  lookup_cache_ttl_in_seconds, metrics_report_interval_in_seconds, gateway_write_timeout_in_seconds,
  http_write_timeout,
}

-- `max` with a constant that is not negative
max-pos_part : (n : ℕ) (v : ℤ) → n ≤ pos_part (max_ℤ (pos n) v)
max-pos_part n (pos m) = ground arith
max-pos_part n (negsuc m) = ground arith

gateway_positive :
    (own shared : ℤ) (n : ℕ) → 1 ≤ n → 1 ≤ pos_part (first_positive own shared (pos n))
unfolding first_positive
gateway_positive (pos zero) (pos zero) n h = ground arith
gateway_positive (pos zero) (pos (suc k)) n h = ground arith
gateway_positive (pos zero) (negsuc k) n h = ground arith
gateway_positive (pos (suc m)) shared n h = ground arith
gateway_positive (negsuc m) (pos zero) n h = ground arith
gateway_positive (negsuc m) (pos (suc k)) n h = ground arith
gateway_positive (negsuc m) (negsuc k) n h = ground arith

-- No duration that is configured leaves the range of an int64 in nanoseconds.
pub record InRange (env : Environment) : Type 0 where
  pub polling : millisecond * (settings_of env).polling_interval_ms < 2 ^ 63
  pub evaluation : millisecond * (settings_of env).cel_timeout_ms < 2 ^ 63
  pub lifetime : second * (settings_of env).lookup_ttl_seconds < 2 ^ 63
  pub reports : second * pos_part (get_metrics_report_interval_in_seconds env) < 2 ^ 63
  pub writing : second * pos_part (get_gateway_write_timeout_in_seconds env) < 2 ^ 63

-- A duration that is at least `least`, and as an int64 positive.
abbrev pub Within : ℕ → ℕ → Type 0
Within least d = (least ≤ d) × (d < 2 ^ 63)

millis-Within :
    (n least : ℕ)
    → least ≤ n
    → millisecond * n < 2 ^ 63
    → Within (millisecond * least) (duration millisecond n)
millis-Within n least h fits = (omega arith, omega arith)

seconds-Within :
    (n least : ℕ) → least ≤ n → second * n < 2 ^ 63 → Within (second * least) (duration second n)
seconds-Within n least h fits = (omega arith, omega arith)

module _ {x : Externals} where
  -- What the durations of a project cache are at least: no ticker of the poller is asked for a
  -- period that is not positive, and no condition is given no time.
  pub record Bounded (pc : ProjectCache x) : Type 0 where
    pub polling : Within (15 * second) pc.remote.polling_interval
    pub evaluation : Within millisecond pc.cel_timeout
    pub lifetime : Within second pc.lookup_ttl

  made_with :
      (settings : Settings) (now : ℕ) (pc : ProjectCache x)
      → new_project_authz_cache x settings now ≡ some pc
      → (pc.remote.polling_interval ≡ duration millisecond settings.polling_interval_ms)
        × (pc.cel_timeout ≡ duration millisecond settings.cel_timeout_ms)
        × (pc.lookup_ttl ≡ duration second settings.lookup_ttl_seconds)
  unfolding new_project_authz_cache
  made_with settings now pc e =
      let (indirect, _, e₁) = >>=-eq-some (x.grants.new settings.indirect_size) _ e in
      let (lookups, _, e₂) = >>=-eq-some (lookup_cache_of x settings) _ e₁ in
      let (direct, _, e₃) = >>=-eq-some (x.grants.new settings.direct_size) _ e₂ in
      (ground (arith, e₃), ground (arith, e₃), ground (arith, e₃))

  -- If no configured duration overflows an int64 of nanoseconds, then, whatever the environment says,
  -- a project cache that is made with its configuration polls at most every fifteen seconds, gives a
  -- condition at least a millisecond and keeps a lookup result at least a second, the metrics
  -- reporter posts at most every ten seconds, the gateway's write timeout, for which zero would mean
  -- none, is at least a second, and each of these durations is positive as an int64.
  pub settings_of-Bounded :
      (env : Environment) (now : ℕ) (pc : ProjectCache x)
      → new_project_authz_cache x (settings_of env) now ≡ some pc
      → InRange env
      → Bounded pc
        × Within (10 * second) (report_interval env)
        × Within second (gateway_write_timeout env)
  unfolding settings_of report_interval gateway_write_timeout get_remote_polling_interval_in_millis
      get_cel_eval_timeout_in_millis get_lookup_cache_ttl_in_seconds
      get_metrics_report_interval_in_seconds get_gateway_write_timeout_in_seconds
  settings_of-Bounded env now pc made fits =
      let (polling, evaluation, lifetime) = made_with (settings_of env) now pc made in
      let p =
        max-pos_part 15_000 (env.int_or_provided remote_polling_interval_in_millis (pos 15_000)) in
      let c = max-pos_part 1 (env.int_or_provided cel_eval_timeout_in_millis (pos 1000)) in
      let l = max-pos_part 1 (env.int_or_provided lookup_cache_ttl_in_seconds (pos 60)) in
      let r = max-pos_part 10 (env.int_or_provided metrics_report_interval_in_seconds (pos 60)) in
      let g =
        gateway_positive (env.int_or_provided gateway_write_timeout_in_seconds (pos 0))
          (env.int_or_provided http_write_timeout (pos 0)) 30 (omega arith) in
      (
        record {
          polling =
              subst (Within (15 * second)) (sym polling) (millis-Within _ 15_000 p fits.polling);
          evaluation =
              subst (Within millisecond) (sym evaluation) (millis-Within _ 1 c fits.evaluation);
          lifetime = subst (Within second) (sym lifetime) (seconds-Within _ 1 l fits.lifetime);
        },
        seconds-Within _ 10 r fits.reports,
        seconds-Within _ 1 g fits.writing,
      )
