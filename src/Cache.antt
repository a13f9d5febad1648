-- ===== src/Cache.antt =====
-- internal/services/caches/projectauthzcache.go: the state of `projectAuthzCache` and its
-- constructor. The operations are in the modules below. Every exported method holds the mutex from
-- its first access to its last, so a method is one function from state to state; what `time.Now()`
-- returns is an argument, in nanoseconds.
pub mod Checks
pub mod Schemas
pub mod Updates
pub mod Lookup
pub mod Polling
pub mod History
use authzcache.Base.{
  ℕ, ◌*◌, ◌%◌, ◌^◌, ◌+◌, Bool, true, false, List, [], Option, none, some, Text, if◌then◌else◌,
  ◌>>=◌,
}
use authzcache.Base.Int.{ℤ}
use authzcache.Base.Map.{Map}
use authzcache.Sdk.{Schema, GoError}
use authzcache.Lru.{Lru, LruLaws}
use authzcache.Cel.{CelEngine, CompiledCondition}
use authzcache.Direct.{CachedGrant, DirectCache}

-- What the cache takes from outside the repository.
pub record Externals : Type 1 where
  pub cel : CelEngine
  pub grants : Lru CachedGrant
  -- the lookup cache holds pointers to entries
  pub lookups : Lru ℕ
  -- `descope.IsError`
  pub is_error : GoError → Text → Bool

pub record ExternalLaws (x : Externals) : Type 0 where
  pub grants : LruLaws x.grants
  pub lookups : LruLaws x.lookups

-- LookupCacheEntry
pub record LookupEntry : Type 0 where
  pub results : List Text
  pub cached_at : ℕ
  pub expires_at : ℕ

-- remoteChangesTracking. `cooldown_timer` is nil or holds the time at which the timer is due.
pub record Tracking : Type 0 where
  pub last_poll_time : ℕ
  pub polling_interval : ℕ
  pub cooldown_window : ℕ
  pub cooldown_timer : Option ℕ

-- What internal/config gives, in its units.
pub record Settings : Type 0 where
  pub direct_size : ℤ
  pub indirect_size : ℤ
  pub polling_interval_ms : ℕ
  pub cooldown_window_minutes : ℕ
  pub cel_timeout_ms : ℕ
  pub lookup_enabled : Bool
  pub lookup_size : ℤ
  pub lookup_ttl_seconds : ℕ
  pub lookup_max_result : ℤ

abbrev pub millisecond : ℕ
millisecond = 1_000_000

abbrev pub second : ℕ
second = 1_000_000_000

abbrev pub minute : ℕ
minute = 60_000_000_000

-- the product of a unit and a number of units as a `time.Duration`: an int64, as its bit pattern
abbrev pub duration : ℕ → ℕ → ℕ
duration unit n = unit * n % 2 ^ 64

module _ (x : Externals) where
  pub record ProjectCache : Type 0 where
    pub schema : Option Schema
    pub direct : DirectCache x.grants
    pub indirect : x.grants.State
    -- a nil map is an empty one: the code only reads it
    pub compiled : Map ℕ (CompiledCondition x.cel)
    pub loaded_version : Text
    pub cel_timeout : ℕ
    pub lookup_cache : Option x.lookups.State
    -- the entries that the lookup cache points to, by address
    pub entries : List LookupEntry
    pub lookup_enabled : Bool
    pub lookup_ttl : ℕ
    pub lookup_max_result : ℤ
    pub remote : Tracking

  -- the outer `none` is an error, the inner one a disabled cache
  pub lookup_cache_of : Settings → Option (Option x.lookups.State)
  lookup_cache_of c =
      if c.lookup_enabled then x.lookups.new c.lookup_size >>= (λ s. some (some s)) else some none

  -- NewProjectAuthzCache
  unfoldable pub new_project_authz_cache : Settings → ℕ → Option ProjectCache
  unfolding lookup_cache_of
  new_project_authz_cache c now = do
    indirect ← x.grants.new c.indirect_size
    lookups ← lookup_cache_of c
    direct ← x.grants.new c.direct_size
    some (record {
      schema = none;
      direct = record { cached = direct; resources = []; targets = []; components = [] };
      indirect = indirect;
      compiled = [];
      loaded_version = [];
      cel_timeout = duration millisecond c.cel_timeout_ms;
      lookup_cache = lookups;
      entries = [];
      lookup_enabled = c.lookup_enabled;
      lookup_ttl = duration second c.lookup_ttl_seconds;
      lookup_max_result = c.lookup_max_result;
      remote = record {
        last_poll_time = now;
        polling_interval = duration millisecond c.polling_interval_ms;
        cooldown_window = duration minute c.cooldown_window_minutes;
        cooldown_timer = none;
      };
    })
