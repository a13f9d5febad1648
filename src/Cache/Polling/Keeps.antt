-- ===== src/Cache/Polling/Keeps.antt =====
-- A tick of the poller and the timer cache nothing, whatever the backend answers.
use authzcache.Base.{
  ℕ, refl, ◌&&◌, List, [], ◌∷◌, Option, none, some, inl, inr, Text, eqb, is_empty, Bool-cases,
}
use authzcache.Sdk.{Modified, GoError}
use authzcache.Direct.{
  DirectCache, remove_direct_relations_by_resource, remove_direct_relations_by_target,
}
use authzcache.Direct.Both.{by_resource_keeps, by_target_keeps}
use authzcache.Cache.{Externals, ExternalLaws, ProjectCache}
use authzcache.Cache.Schemas.{set_schema, purge_all_caches}
use authzcache.Cache.Schemas.Purge.{purge_all_caches-IsPurged}
use authzcache.Cache.Updates.Keeps.{
  StateKeeps, Keeps, Keeps-refl, fields-Keeps, purged-Keeps, purge_keeps,
}
use authzcache.Cache.Polling.{
  Fetched, changes, fetch_error, set_last_poll_time, take_fetched, fetch_remote_changes,
  cancel_purge_cooldown, apply_changes, on_changes, on_error, on_fetched, has_no_relations,
  update_cache_with_remote_polling, on_timer, fire, purge_after_cooldown, start_timer,
  is_too_many_modified_relations,
}
use authzcache.Cache.Polling.Changes.{resources_all, targets_all, apply_changes-fields}

module _ {x : Externals} (laws : ExternalLaws x) where
  open laws.grants use {peek}

  resources_all_keeps :
      (rs : List Text) (d : DirectCache x.grants)
      → StateKeeps laws d.cached (resources_all laws rs d).cached
  unfolding resources_all
  resources_all_keeps [] d k g h = h
  resources_all_keeps (r ∷ rs) d k g h =
      by_resource_keeps laws.grants r k d
        (resources_all_keeps rs (remove_direct_relations_by_resource r d) k g h)

  targets_all_keeps :
      (ts : List Text) (d : DirectCache x.grants)
      → StateKeeps laws d.cached (targets_all laws ts d).cached
  unfolding targets_all
  targets_all_keeps [] d k g h = h
  targets_all_keeps (t ∷ ts) d k g h =
      by_target_keeps laws.grants t k d
        (targets_all_keeps ts (remove_direct_relations_by_target t d) k g h)

  apply_changes-Keeps : (m : Modified) (pc : ProjectCache x) → Keeps laws pc (apply_changes m pc)
  apply_changes-Keeps m pc = rw (apply_changes-fields laws m pc) (record {
    direct = λ k g h.
        resources_all_keeps m.resources pc.direct k g
          (targets_all_keeps m.targets (resources_all laws m.resources pc.direct) k g h);
    indirect = purge_keeps laws pc.indirect _ refl;
  })

  purged_at : (now : ℕ) (pc before : ProjectCache x) → Keeps laws before (purge_all_caches now pc)
  purged_at now pc before =
      purged-Keeps laws before (purge_all_caches now pc) (purge_all_caches-IsPurged laws now pc).0

  on_changes-Keeps :
      (later : ℕ) (m : Modified) (pc : ProjectCache x) → Keeps laws pc (on_changes later m pc)
  unfolding on_changes cancel_purge_cooldown apply_changes
  on_changes-Keeps later m pc = elim (Bool-cases m.schema_changed) [
    | inl e ↦ rw e (purged_at later (cancel_purge_cooldown pc) pc)
    | inr e ↦ elim (Bool-cases (is_empty m.resources && is_empty m.targets)) [
      | inl no_names ↦ rw (e, no_names) (fields-Keeps laws pc (cancel_purge_cooldown pc) refl refl)
      | inr names ↦
          let k = apply_changes-Keeps m (cancel_purge_cooldown pc) in
          rw (e, names) (record { direct = k.direct; indirect = k.indirect })
    ]
  ]

  start_timer-Keeps :
      (later : ℕ) (o : Option ℕ) (pc : ProjectCache x) → Keeps laws pc (start_timer later o pc)
  unfolding start_timer
  start_timer-Keeps later none pc = fields-Keeps laws pc _ refl refl
  start_timer-Keeps later (some due) pc = Keeps-refl laws pc

  on_error-Keeps :
      (later : ℕ) (e : GoError) (pc : ProjectCache x) → Keeps laws pc (on_error later e pc)
  unfolding on_error purge_after_cooldown
  on_error-Keeps later e pc = elim (Bool-cases (is_too_many_modified_relations x e)) [
    | inl many ↦ rw many (purged_at later (cancel_purge_cooldown pc) pc)
    | inr few ↦ elim (Bool-cases (eqb pc.remote.cooldown_window 0)) [
      | inl e ↦ rw (few, e) (purged_at later pc pc)
      | inr e ↦ rw (few, e) (start_timer-Keeps later pc.remote.cooldown_timer pc)
    ]
  ]

  on_fetched-Keeps :
      (later now : ℕ) (f : Fetched) (pc : ProjectCache x)
      → Keeps laws pc (on_fetched later (take_fetched f now pc))
  unfolding on_fetched take_fetched
  on_fetched-Keeps later now (changes m) pc =
      let k = on_changes-Keeps later m (set_last_poll_time now pc) in
      record { direct = k.direct; indirect = k.indirect }
  on_fetched-Keeps later now (fetch_error e) pc = on_error-Keeps later e pc

  pub polling-Keeps :
      (remote : ℕ → Fetched) (now later : ℕ) (pc : ProjectCache x)
      → Keeps laws pc (update_cache_with_remote_polling remote now later pc)
  unfolding update_cache_with_remote_polling set_schema fetch_remote_changes
  polling-Keeps remote now later pc = elim (Bool-cases (has_no_relations pc)) [
    | inl idle ↦ rw idle (fields-Keeps laws pc _ refl refl)
    | inr busy ↦ rw busy (on_fetched-Keeps later now (remote pc.remote.last_poll_time) pc)
  ]

  fire-Keeps : (now : ℕ) (o : Option ℕ) (pc : ProjectCache x) → Keeps laws pc (fire now o pc)
  unfolding fire
  fire-Keeps now none pc = Keeps-refl laws pc
  fire-Keeps now (some due) pc =
      let k = purged_at now pc pc in record { direct = k.direct; indirect = k.indirect }

  pub on_timer-Keeps : (now : ℕ) (pc : ProjectCache x) → Keeps laws pc (on_timer now pc)
  unfolding on_timer
  on_timer-Keeps now pc = fire-Keeps now pc.remote.cooldown_timer pc
