-- ===== src/Cache/Polling/Trace.antt =====
-- What a tick of the poller and the timer do to the cache of direct grants.
use authzcache.Base.{
  ℕ, refl, ◌&&◌, List, [], ◌∷◌, Option, none, some, inl, inr, Text, eqb, is_empty, Bool-cases,
}
use authzcache.Sdk.{Modified, GoError}
use authzcache.Direct.{
  DirectCache, remove_direct_relations_by_resource, remove_direct_relations_by_target,
}
use authzcache.Direct.Precise.{Trace, aged, emptied, swept_resource, swept_target, and_then}
use authzcache.Cache.{Externals, ExternalLaws, ProjectCache}
use authzcache.Cache.Schemas.{set_schema, purge_all_caches}
use authzcache.Cache.Schemas.Purge.{IsPurged, purge_all_caches-IsPurged}
use authzcache.Cache.Polling.{
  Fetched, changes, fetch_error, set_last_poll_time, take_fetched, fetch_remote_changes,
  cancel_purge_cooldown, apply_changes, on_changes, on_error, on_fetched, has_no_relations,
  update_cache_with_remote_polling, on_timer, fire, purge_after_cooldown, start_timer,
  is_too_many_modified_relations,
}
use authzcache.Cache.Polling.Changes.{resources_all, targets_all, apply_changes-fields}

module _ {x : Externals} (laws : ExternalLaws x) where
  pub purged-Trace :
      (d : DirectCache x.grants) (pc : ProjectCache x) → IsPurged laws pc → Trace d pc.direct
  purged-Trace d pc p = let (r, t, _) = p.no_key in emptied r t

  resources_all-Trace :
      (rs : List Text) (d : DirectCache x.grants) → Trace d (resources_all laws rs d)
  unfolding resources_all
  resources_all-Trace [] d = aged refl refl
  resources_all-Trace (r ∷ rs) d =
      and_then (swept_resource r) (resources_all-Trace rs (remove_direct_relations_by_resource r d))

  targets_all-Trace : (ts : List Text) (d : DirectCache x.grants) → Trace d (targets_all laws ts d)
  unfolding targets_all
  targets_all-Trace [] d = aged refl refl
  targets_all-Trace (t ∷ ts) d =
      and_then (swept_target t) (targets_all-Trace ts (remove_direct_relations_by_target t d))

  apply_changes-Trace :
      (m : Modified) (pc : ProjectCache x) → Trace pc.direct (apply_changes m pc).direct
  apply_changes-Trace m pc = rw (apply_changes-fields laws m pc) (
      and_then (resources_all-Trace m.resources pc.direct)
        (targets_all-Trace m.targets (resources_all laws m.resources pc.direct)))

  on_changes-Trace :
      (later : ℕ) (m : Modified) (pc : ProjectCache x)
      → Trace pc.direct (on_changes later m pc).direct
  unfolding on_changes cancel_purge_cooldown apply_changes
  on_changes-Trace later m pc = elim (Bool-cases m.schema_changed) [
    | inl e ↦ rw e (
        purged-Trace pc.direct (purge_all_caches later (cancel_purge_cooldown pc))
          (purge_all_caches-IsPurged laws later (cancel_purge_cooldown pc)).0)
    | inr e ↦ elim (Bool-cases (is_empty m.resources && is_empty m.targets)) [
      | inl no_names ↦ rw (e, no_names) (aged refl refl)
      | inr names ↦ rw (e, names) (apply_changes-Trace m (cancel_purge_cooldown pc))
    ]
  ]

  start_timer-Trace :
      (later : ℕ) (o : Option ℕ) (pc : ProjectCache x)
      → Trace pc.direct (start_timer later o pc).direct
  unfolding start_timer
  start_timer-Trace later none pc = aged refl refl
  start_timer-Trace later (some due) pc = aged refl refl

  on_error-Trace :
      (later : ℕ) (e : GoError) (pc : ProjectCache x) → Trace pc.direct (on_error later e pc).direct
  unfolding on_error cancel_purge_cooldown purge_after_cooldown
  on_error-Trace later e pc = elim (Bool-cases (is_too_many_modified_relations x e)) [
    | inl many ↦ rw many (
        purged-Trace pc.direct (purge_all_caches later (cancel_purge_cooldown pc))
          (purge_all_caches-IsPurged laws later (cancel_purge_cooldown pc)).0)
    | inr few ↦ elim (Bool-cases (eqb pc.remote.cooldown_window 0)) [
      | inl e ↦
          rw (few, e)
            (purged-Trace pc.direct (purge_all_caches later pc)
              (purge_all_caches-IsPurged laws later pc).0)
      | inr e ↦ rw (few, e) (start_timer-Trace later pc.remote.cooldown_timer pc)
    ]
  ]

  on_fetched-Trace :
      (later now : ℕ) (f : Fetched) (pc : ProjectCache x)
      → Trace pc.direct (on_fetched later (take_fetched f now pc)).direct
  unfolding on_fetched take_fetched
  on_fetched-Trace later now (changes m) pc = on_changes-Trace later m (set_last_poll_time now pc)
  on_fetched-Trace later now (fetch_error e) pc = on_error-Trace later e pc

  pub polling-Trace :
      (remote : ℕ → Fetched) (now later : ℕ) (pc : ProjectCache x)
      → Trace pc.direct (update_cache_with_remote_polling remote now later pc).direct
  unfolding update_cache_with_remote_polling set_schema fetch_remote_changes
  polling-Trace remote now later pc = elim (Bool-cases (has_no_relations pc)) [
    | inl idle ↦ rw idle (aged refl refl)
    | inr busy ↦ rw busy (on_fetched-Trace later now (remote pc.remote.last_poll_time) pc)
  ]

  fire-Trace :
      (now : ℕ) (o : Option ℕ) (pc : ProjectCache x) → Trace pc.direct (fire now o pc).direct
  unfolding fire
  fire-Trace now none pc = aged refl refl
  fire-Trace now (some due) pc =
      purged-Trace pc.direct (purge_all_caches now pc) (purge_all_caches-IsPurged laws now pc).0

  pub on_timer-Trace : (now : ℕ) (pc : ProjectCache x) → Trace pc.direct (on_timer now pc).direct
  unfolding on_timer
  on_timer-Trace now pc = fire-Trace now pc.remote.cooldown_timer pc
