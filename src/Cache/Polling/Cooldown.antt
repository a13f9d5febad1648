-- ===== src/Cache/Polling/Cooldown.antt =====
-- Failed polls: the cooldown window, its timer, and the purge at its end.
use authzcache.Base.{
  ℕ, ◌+◌, ◌≡◌, refl, subst, sym, ◌⊎◌, ◌∙◌, ap, true, false, List, [], ◌∷◌, Option, none, some, inl,
  inr, arith, eqb, Bool-cases, if◌then◌else◌,
}
use authzcache.Sdk.{GoError}
use authzcache.Cache.{Externals, ExternalLaws, ProjectCache, Tracking}
use authzcache.Cache.Schemas.{purge_all_caches, set_schema}
use authzcache.Cache.Schemas.Loaded.{Loaded}
use authzcache.Cache.Schemas.Purge.{IsPurged, purge_all_caches-IsPurged}
use authzcache.Cache.Polling.{
  is_too_many_modified_relations, cancel_purge_cooldown, start_timer, purge_after_cooldown, fire,
  on_timer, on_error,
}

-- The time at which the timer is due after an error at `later`.
abbrev pub due_after : ℕ → Tracking → ℕ
due_after later t = elim t.cooldown_timer [ none ↦ later + t.cooldown_window | some due ↦ due ]

module _ (x : Externals) where
  -- none of the errors says that there are too many changes
  abbrev pub Few : List (ℕ × GoError) → Type 0
  Few [] = Unit {0}
  Few ((later, e) ∷ es) = (is_too_many_modified_relations x e ≡ false) × Few es

module _ {x : Externals} where
  with_timer : Option ℕ → ProjectCache x → ProjectCache x
  with_timer t pc = record pc { remote = record pc.remote { cooldown_timer = t } }

  start_timer-due :
      (later : ℕ) (o : Option ℕ) (pc : ProjectCache x)
      → pc.remote.cooldown_timer ≡ o
      → start_timer later o pc ≡ with_timer (some (due_after later pc.remote)) pc
  unfolding start_timer with_timer
  start_timer-due later none pc e = ap {A = Option ℕ} (λ t. with_timer t pc) (sym (ground arith))
  start_timer-due later (some due) pc e =
      ap {A = Option ℕ} (λ t. with_timer t pc)
        (let p : pc.remote.cooldown_timer ≡ some (due_after later pc.remote) = ground arith in p)

  -- An error that does not say that there are too many changes, when a cooldown window is
  -- configured, keeps every cache and the last poll time; it only makes sure that a timer runs,
  -- and never puts off one that does.
  on_error-waits :
      (later : ℕ) (e : GoError) (pc : ProjectCache x)
      → is_too_many_modified_relations x e ≡ false
      → eqb pc.remote.cooldown_window 0 ≡ false
      → on_error later e pc ≡ record pc {
        remote = record pc.remote { cooldown_timer = some (due_after later pc.remote) };
      }
  unfolding on_error purge_after_cooldown with_timer
  on_error-waits later e pc few window =
      rw (few, window) (start_timer-due later pc.remote.cooldown_timer pc refl)

  -- Errors one after the other in a window, at the given times: the timer stays due when the first of
  -- them started it, so the purge comes no later than one window after the first error.
  pub on_errors : List (ℕ × GoError) → ProjectCache x → ProjectCache x
  on_errors [] pc = pc
  on_errors ((later, e) ∷ es) pc = on_errors es (on_error later e pc)

  on_errors-due :
      (es : List (ℕ × GoError)) (due : ℕ) (pc : ProjectCache x)
      → Few x es
      → eqb pc.remote.cooldown_window 0 ≡ false
      → pc.remote.cooldown_timer ≡ some due
      → on_errors es pc ≡ pc
  unfolding on_errors with_timer
  on_errors-due [] due pc f w t = refl
  on_errors-due ((later, e) ∷ es) due pc f w t =
      ap (on_errors es) (on_error-waits later e pc f.0 w ∙ same) ∙ on_errors-due es due pc f.1 w t
    where
      same : with_timer (some (due_after later pc.remote)) pc ≡ pc
      same =
          ap {A = Option ℕ} (λ t. with_timer t pc)
            (let p : some (due_after later pc.remote) ≡ pc.remote.cooldown_timer = ground arith in
              p)

  -- Any number of errors, none of which says that there are too many changes, when a cooldown
  -- window is configured and no timer runs: the caches and the last poll time stay, and the purge
  -- is due one window after the first error, whenever the later errors came.
  pub on_errors-first :
      (later : ℕ) (e : GoError) (es : List (ℕ × GoError)) (pc : ProjectCache x)
      → Few x ((later, e) ∷ es)
      → eqb pc.remote.cooldown_window 0 ≡ false
      → pc.remote.cooldown_timer ≡ none
      → on_errors ((later, e) ∷ es) pc ≡ record pc {
        remote = record pc.remote { cooldown_timer = some (later + pc.remote.cooldown_window) };
      }
  unfolding on_errors with_timer
  on_errors-first later e es pc f w t =
      ap (on_errors es) (on_error-waits later e pc f.0 w ∙ first)
      ∙ on_errors-due es (later + pc.remote.cooldown_window) started f.1 w refl
    where
      started : ProjectCache x
      started = with_timer (some (later + pc.remote.cooldown_window)) pc

      first : with_timer (some (due_after later pc.remote)) pc ≡ started
      first =
          ap {A = Option ℕ} (λ t. with_timer t pc)
            (let p : some (due_after later pc.remote) ≡ some (later + pc.remote.cooldown_window) =
                ground arith in
              p)

module _ {x : Externals} (laws : ExternalLaws x) where
  -- An error purges at once if the backend counts too many changes or if no window is configured: it
  -- leaves nothing cached and no schema, version or program loaded, and moves the last poll time to
  -- the time of the purge. If there are too many changes, it also cancels the timer.
  pub on_error-IsPurged :
      (later : ℕ) (e : GoError) (pc : ProjectCache x)
      → (is_too_many_modified_relations x e ≡ true) ⊎ (eqb pc.remote.cooldown_window 0 ≡ true)
      → IsPurged laws (on_error later e pc)
        × Loaded none (on_error later e pc)
        × ((on_error later e pc).remote ≡ record pc.remote {
          cooldown_timer =
              if is_too_many_modified_relations x e then none else pc.remote.cooldown_timer;
          last_poll_time = later;
        })
  unfolding on_error purge_after_cooldown cancel_purge_cooldown
  on_error-IsPurged later e pc h = elim (Bool-cases (is_too_many_modified_relations x e)) [
    | inl many ↦ rw many (purge_all_caches-IsPurged laws later (cancel_purge_cooldown pc))
    | inr few ↦
        let w : eqb pc.remote.cooldown_window 0 ≡ true = ground arith in
        rw (few, w) (purge_all_caches-IsPurged laws later pc)
  ]

  -- When the timer is due and was not cancelled, its callback leaves nothing cached, no schema and no
  -- timer, and moves the last poll time to the time of the purge.
  pub on_timer-IsPurged :
      (now due : ℕ) (pc : ProjectCache x)
      → pc.remote.cooldown_timer ≡ some due
      → IsPurged laws (on_timer now pc)
        × ((on_timer now pc).schema ≡ none)
        × ((on_timer now pc).remote
            ≡ record pc.remote { cooldown_timer = none; last_poll_time = now })
  unfolding on_timer fire purge_all_caches set_schema
  on_timer-IsPurged now due pc e =
      subst
        (λ t.
          IsPurged laws (fire now t pc)
          × ((fire now t pc).schema ≡ none)
          × ((fire now t pc).remote
              ≡ record pc.remote { cooldown_timer = none; last_poll_time = now }))
        (sym e) (fired due)
    where
      fired :
          (due : ℕ)
          → IsPurged laws (fire now (some due) pc)
            × ((fire now (some due) pc).schema ≡ none)
            × ((fire now (some due) pc).remote
                ≡ record pc.remote { cooldown_timer = none; last_poll_time = now })
      fired due =
          let p = (purge_all_caches-IsPurged laws now pc).0 in
          (
            record {
              no_direct = p.no_direct;
              no_indirect = p.no_indirect;
              no_lookup = p.no_lookup;
              no_key = p.no_key;
            },
            refl,
            refl,
          )
