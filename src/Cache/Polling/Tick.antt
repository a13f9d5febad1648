-- ===== src/Cache/Polling/Tick.antt =====
-- One tick of the poller, whatever the backend answers.
use authzcache.Base.{
  ℕ, ◌≡◌, sym, subst, true, false, ◌&&◌, Option, none, some, ◌⊎◌, inl, inr, arith, text_eq, eqb,
  contains, is_empty, Bool-cases,
}
use authzcache.Sdk.{Relation, Modified, GoError}
use authzcache.Direct.{key}
use authzcache.Direct.Sweep.{IsUnambiguous}
use authzcache.Cache.{Externals, ExternalLaws, ProjectCache}
use authzcache.Cache.Schemas.{set_schema, purge_all_caches}
use authzcache.Cache.Schemas.Purge.{IsPurged, purge_all_caches-IsPurged}
use authzcache.Cache.Updates.Invalidation.{Forgotten, Indexed}
use authzcache.Cache.Polling.{
  Fetched, changes, fetch_error, set_last_poll_time, take_fetched, fetch_remote_changes,
  cancel_purge_cooldown, apply_changes, on_changes, on_error, on_fetched, has_no_relations,
  update_cache_with_remote_polling, on_timer, fire, purge_after_cooldown, start_timer,
  is_too_many_modified_relations,
}
use authzcache.Cache.Polling.Changes.{Reported, apply_changes-Forgotten, apply_changes-Indexed}

nothing-Reported :
    (m : Modified) (q : Relation)
    → m.schema_changed ≡ false
    → (is_empty m.resources && is_empty m.targets) ≡ true
    → Reported m q
    → ⊥
nothing-Reported m q e no_names r = ground arith

changed_names :
    (m : Modified) (q : Relation)
    → m.schema_changed ≡ false
    → Reported m q
    → (contains q.resource m.resources ≡ true) ⊎ (contains q.target m.targets ≡ true)
changed_names m q e (inl c) = absurd (ground arith)
changed_names m q e (inr c) = c

module _ {x : Externals} (laws : ExternalLaws x) where
  purged-Forgotten : (q : Relation) (pc : ProjectCache x) → IsPurged laws pc → Forgotten laws q pc
  purged-Forgotten q pc p = (p.no_direct (key q), p.no_indirect (key q))

  purged-Indexed : (pc : ProjectCache x) → IsPurged laws pc → Indexed laws pc
  purged-Indexed pc p k g e = absurd (ground (arith, p.no_direct k))

  on_changes-Forgotten :
      (later : ℕ) (m : Modified) (q : Relation) (pc : ProjectCache x)
      → Indexed laws pc
      → IsUnambiguous q
      → Reported m q
      → Forgotten laws q (on_changes later m pc)
  unfolding on_changes cancel_purge_cooldown apply_changes
  on_changes-Forgotten later m q pc h u r = elim (Bool-cases m.schema_changed) [
    | inl e ↦ rw e (
        purged-Forgotten q (purge_all_caches later (cancel_purge_cooldown pc))
          (purge_all_caches-IsPurged laws later (cancel_purge_cooldown pc)).0)
    | inr e ↦ elim (Bool-cases (is_empty m.resources && is_empty m.targets)) [
      | inl no_names ↦ absurd (nothing-Reported m q e no_names r)
      | inr names ↦
          rw (e, names)
            (apply_changes-Forgotten laws q u m (cancel_purge_cooldown pc) h
              (changed_names m q e r))
    ]
  ]

  -- A successful poll leaves nothing cached, in either cache, for a relation whose resource or target
  -- the backend reports as changed since the last poll, and nothing at all if the schema changed.
  pub polling-Forgotten :
      (remote : ℕ → Fetched) (now later : ℕ) (m : Modified) (q : Relation) (pc : ProjectCache x)
      → Indexed laws pc
      → IsUnambiguous q
      → remote pc.remote.last_poll_time ≡ changes m
      → Reported m q
      → Forgotten laws q (update_cache_with_remote_polling remote now later pc)
  unfolding update_cache_with_remote_polling has_no_relations set_schema
  polling-Forgotten remote now later m q pc h u answer r = elim (Bool-cases (has_no_relations pc)) [
    | inl idle ↦ rw idle (
      laws.grants.len_zero pc.direct.cached (key q) (ground arith),
      laws.grants.len_zero pc.indirect (key q) (ground arith),
    )
    | inr busy ↦ rw busy (
        subst (λ f. Forgotten laws q (on_fetched later (take_fetched f now pc))) (sym answer)
          (on_changes-Forgotten later m q (set_last_poll_time now pc) h u r))
  ]

  on_changes-Indexed :
      (later : ℕ) (m : Modified) (pc : ProjectCache x)
      → Indexed laws pc
      → Indexed laws (on_changes later m pc)
  unfolding on_changes cancel_purge_cooldown apply_changes
  on_changes-Indexed later m pc h = elim (Bool-cases m.schema_changed) [
    | inl e ↦ rw e (
        purged-Indexed (purge_all_caches later (cancel_purge_cooldown pc))
          (purge_all_caches-IsPurged laws later (cancel_purge_cooldown pc)).0)
    | inr e ↦ elim (Bool-cases (is_empty m.resources && is_empty m.targets)) [
      | inl no_names ↦ rw (e, no_names) h
      | inr names ↦ rw (e, names) (apply_changes-Indexed laws m (cancel_purge_cooldown pc) h)
    ]
  ]

  start_timer-Indexed :
      (later : ℕ) (o : Option ℕ) (pc : ProjectCache x)
      → Indexed laws pc
      → Indexed laws (start_timer later o pc)
  unfolding start_timer
  start_timer-Indexed later none pc h = h
  start_timer-Indexed later (some due) pc h = h

  on_error-Indexed :
      (later : ℕ) (e : GoError) (pc : ProjectCache x)
      → Indexed laws pc
      → Indexed laws (on_error later e pc)
  unfolding on_error cancel_purge_cooldown purge_after_cooldown
  on_error-Indexed later e pc h = elim (Bool-cases (is_too_many_modified_relations x e)) [
    | inl many ↦ rw many (
        purged-Indexed (purge_all_caches later (cancel_purge_cooldown pc))
          (purge_all_caches-IsPurged laws later (cancel_purge_cooldown pc)).0)
    | inr few ↦ elim (Bool-cases (eqb pc.remote.cooldown_window 0)) [
      | inl e ↦
          rw (few, e)
            (purged-Indexed (purge_all_caches later pc) (purge_all_caches-IsPurged laws later pc).0)
      | inr e ↦ rw (few, e) (start_timer-Indexed later pc.remote.cooldown_timer pc h)
    ]
  ]

  on_fetched-Indexed :
      (later now : ℕ) (f : Fetched) (pc : ProjectCache x)
      → Indexed laws pc
      → Indexed laws (on_fetched later (take_fetched f now pc))
  unfolding on_fetched take_fetched
  on_fetched-Indexed later now (changes m) pc h =
      on_changes-Indexed later m (set_last_poll_time now pc) h
  on_fetched-Indexed later now (fetch_error e) pc h = on_error-Indexed later e pc h

  pub polling-Indexed :
      (remote : ℕ → Fetched) (now later : ℕ) (pc : ProjectCache x)
      → Indexed laws pc
      → Indexed laws (update_cache_with_remote_polling remote now later pc)
  unfolding update_cache_with_remote_polling set_schema fetch_remote_changes
  polling-Indexed remote now later pc h = elim (Bool-cases (has_no_relations pc)) [
    | inl idle ↦ rw idle h
    | inr busy ↦ rw busy (on_fetched-Indexed later now (remote pc.remote.last_poll_time) pc h)
  ]

  fire-Indexed :
      (now : ℕ) (o : Option ℕ) (pc : ProjectCache x)
      → Indexed laws pc
      → Indexed laws (fire now o pc)
  unfolding fire
  fire-Indexed now none pc h = h
  fire-Indexed now (some due) pc h =
      purged-Indexed (purge_all_caches now pc) (purge_all_caches-IsPurged laws now pc).0

  pub on_timer-Indexed :
      (now : ℕ) (pc : ProjectCache x) → Indexed laws pc → Indexed laws (on_timer now pc)
  unfolding on_timer
  on_timer-Indexed now pc h = fire-Indexed now pc.remote.cooldown_timer pc h
