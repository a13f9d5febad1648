-- ===== src/Cache/Polling.antt =====
-- `updateCacheWithRemotePolling`, `fetchRemoteChanges`, `purgeAfterCooldown`, the callback of its
-- timer, and `cancelPurgeCooldown`. `remote` is `GetModified` at the time of the call, as a
-- function of `since`; `now` is read before that call and `later` after it.
pub mod Changes
pub mod Cooldown
pub mod Tick
pub mod Keeps
pub mod Trace
use authzcache.Base.{
  ℕ, ◌+◌, Bool, ◌&&◌, List, [], ◌∷◌, Option, none, some, Text, eqb, is_empty, if◌then◌else◌,
}
use authzcache.Sdk.{Modified, GoError}
use authzcache.Direct.{remove_direct_relations_by_resource, remove_direct_relations_by_target}
use authzcache.Cache.{Externals, ProjectCache}
use authzcache.Cache.Schemas.{set_schema, purge_all_caches}
use authzcache.Cache.Updates.{purge_indirect}

pub data Fetched : Type 0 where
  changes : Modified → Fetched
  fetch_error : GoError → Fetched

-- "E173012"
abbrev pub get_modified_limit_reached : Text
get_modified_limit_reached = b'E' ∷ b'1' ∷ b'7' ∷ b'3' ∷ b'0' ∷ b'1' ∷ b'2' ∷ []

module _ (x : Externals) where
  unfoldable pub is_too_many_modified_relations : GoError → Bool
  is_too_many_modified_relations err = x.is_error err get_modified_limit_reached

module _ {x : Externals} where
  abbrev set_last_poll_time : ℕ → ProjectCache x → ProjectCache x
  set_last_poll_time now pc = record pc { remote = record pc.remote { last_poll_time = now } }

  abbrev set_timer : Option ℕ → ProjectCache x → ProjectCache x
  set_timer timer pc = record pc { remote = record pc.remote { cooldown_timer = timer } }

  -- the part of `fetchRemoteChanges` after the call: an error keeps the last poll time
  take_fetched : Fetched → ℕ → ProjectCache x → Fetched × ProjectCache x
  take_fetched (fetch_error e) now pc = (fetch_error e, pc)
  take_fetched (changes m) now pc = (changes m, set_last_poll_time now pc)

  pub fetch_remote_changes : (ℕ → Fetched) → ℕ → ProjectCache x → Fetched × ProjectCache x
  unfolding take_fetched
  fetch_remote_changes remote now pc = take_fetched (remote pc.remote.last_poll_time) now pc

  pub cancel_purge_cooldown : ProjectCache x → ProjectCache x
  cancel_purge_cooldown pc = set_timer none pc

  -- with a window: start the timer unless it runs
  start_timer : ℕ → Option ℕ → ProjectCache x → ProjectCache x
  start_timer now none pc = set_timer (some (now + pc.remote.cooldown_window)) pc
  start_timer now (some due) pc = pc

  pub purge_after_cooldown : ℕ → ProjectCache x → ProjectCache x
  unfolding start_timer
  purge_after_cooldown now pc =
      if eqb pc.remote.cooldown_window 0
      then purge_all_caches now pc
      else start_timer now pc.remote.cooldown_timer pc

  -- the function that `time.AfterFunc` runs
  fire : ℕ → Option ℕ → ProjectCache x → ProjectCache x
  fire now none pc = pc
  fire now (some due) pc = set_timer none (purge_all_caches now pc)

  pub on_timer : ℕ → ProjectCache x → ProjectCache x
  unfolding fire
  on_timer now pc = fire now pc.remote.cooldown_timer pc

  pub sweep_resources : List Text → ProjectCache x → ProjectCache x
  sweep_resources [] pc = pc
  sweep_resources (r ∷ rs) pc =
      sweep_resources rs (record pc { direct = remove_direct_relations_by_resource r pc.direct })

  pub sweep_targets : List Text → ProjectCache x → ProjectCache x
  sweep_targets [] pc = pc
  sweep_targets (t ∷ ts) pc =
      sweep_targets ts (record pc { direct = remove_direct_relations_by_target t pc.direct })

  pub apply_changes : Modified → ProjectCache x → ProjectCache x
  unfolding sweep_resources sweep_targets
  apply_changes m pc = sweep_targets m.targets (sweep_resources m.resources (purge_indirect pc))

  pub on_changes : ℕ → Modified → ProjectCache x → ProjectCache x
  unfolding cancel_purge_cooldown
  on_changes later m pc =
      let calm = cancel_purge_cooldown pc in
      if m.schema_changed
      then purge_all_caches later calm
      else if is_empty m.resources && is_empty m.targets
      then calm
      else apply_changes m calm

  pub on_error : ℕ → GoError → ProjectCache x → ProjectCache x
  unfolding cancel_purge_cooldown
  on_error later e pc =
      if is_too_many_modified_relations x e
      then purge_all_caches later (cancel_purge_cooldown pc)
      else purge_after_cooldown later pc

  on_fetched : ℕ → Fetched × ProjectCache x → ProjectCache x
  on_fetched later (changes m, pc) = on_changes later m pc
  on_fetched later (fetch_error e, pc) = on_error later e pc

  -- `directRelationCache.Len(ctx) == 0 && indirectRelationCache.Len(ctx) == 0`
  pub has_no_relations : ProjectCache x → Bool
  has_no_relations pc = eqb (x.grants.len pc.direct.cached) 0 && eqb (x.grants.len pc.indirect) 0

  pub update_cache_with_remote_polling : (ℕ → Fetched) → ℕ → ℕ → ProjectCache x → ProjectCache x
  unfolding on_fetched fetch_remote_changes
  update_cache_with_remote_polling remote now later pc =
      if has_no_relations pc
      then set_schema none (set_last_poll_time now pc)
      else on_fetched later (fetch_remote_changes remote now pc)
