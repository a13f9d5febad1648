-- ===== src/Cache/Lookup/Frame.antt =====
-- The lookup operations touch nothing but the lookup cache and its entries.
use authzcache.Base.{
  ℕ, ◌≡◌, refl, ◌∙◌, ap, List, Option, none, some, inl, inr, Text, text_eq, ltb, length, contains,
  Bool-cases,
}
use authzcache.Base.Int.{pos, ltb_ℤ}
use authzcache.Sdk.{Relation, AuthzRelation}
use authzcache.Cache.{Externals, ProjectCache, LookupEntry}
use authzcache.Cache.Lookup.{
  is_disabled, who_can_access_key, what_can_target_access_key, join_result, format_results,
  find_entry, get_entry, get_results, get_who_can_access_cached, get_what_can_target_access_cached,
  add_entry, set_results, set_who_can_access_cached, set_what_can_target_access_cached,
  invalidate_lookup_cache, append_result, extend_entry, add_to_lookup_cache,
}

module _ {x : Externals} where
  pub record LookupOnly (pc pc' : ProjectCache x) : Type 0 where
    pub lookup_cache : Option x.lookups.State
    pub entries : List LookupEntry
    pub same : pc' ≡ record pc { lookup_cache = lookup_cache; entries = entries }

  pub LookupOnly-refl : (pc : ProjectCache x) → LookupOnly pc pc
  LookupOnly-refl pc = record { lookup_cache = pc.lookup_cache; entries = pc.entries; same = refl }

  pub LookupOnly-trans : {a b c : ProjectCache x} → LookupOnly a b → LookupOnly b c → LookupOnly a c
  LookupOnly-trans {a} {b} {c} p q = record {
    lookup_cache = q.lookup_cache;
    entries = q.entries;
    same =
        q.same
        ∙ ap {A = ProjectCache x} {B = ProjectCache x}
            (λ s. record s { lookup_cache = q.lookup_cache; entries = q.entries }) p.same;
  }

  find_entry-frame :
      (k : Text) (pc : ProjectCache x) (cache : Option x.lookups.State)
      → LookupOnly pc (find_entry k pc cache).1
  unfolding find_entry
  find_entry-frame k pc none = LookupOnly-refl pc
  find_entry-frame k pc (some s) = record {
    lookup_cache = some (x.lookups.get s k).1;
    entries = pc.entries;
    same = refl;
  }

  get_entry-frame : (k : Text) (pc : ProjectCache x) → LookupOnly pc (get_entry k pc).1
  unfolding get_entry
  get_entry-frame k pc = find_entry-frame k pc pc.lookup_cache

  append_result-frame :
      (now : ℕ) (value : Text) (found : Option (ℕ × LookupEntry)) (pc : ProjectCache x)
      → LookupOnly pc (append_result now value found pc)
  unfolding append_result
  append_result-frame now value none pc = LookupOnly-refl pc
  append_result-frame now value (some (address, entry)) pc =
      elim (Bool-cases (ltb now entry.expires_at)) [
        | inl e ↦ elim (Bool-cases (contains value entry.results)) [
          | inl c ↦ rw (e, c) (LookupOnly-refl pc)
          | inr c ↦ rw (e, c) (record { lookup_cache = pc.lookup_cache; entries = _; same = refl })
        ]
        | inr e ↦ rw e (LookupOnly-refl pc)
      ]

  extend_entry-frame :
      (now : ℕ) (k value : Text) (pc : ProjectCache x) → LookupOnly pc (extend_entry now k value pc)
  unfolding extend_entry
  extend_entry-frame now k value pc =
      LookupOnly-trans (get_entry-frame k pc)
        (append_result-frame now value (get_entry k pc).0 (get_entry k pc).1)

  -- A relation that was created changes the lookup cache and its entries, and nothing else.
  pub add_to_lookup_cache-frame :
      (now : ℕ) (r : Relation) (pc : ProjectCache x) → LookupOnly pc (add_to_lookup_cache now r pc)
  unfolding add_to_lookup_cache
  add_to_lookup_cache-frame now r pc = elim (Bool-cases (is_disabled pc)) [
    | inl e ↦ rw e (LookupOnly-refl pc)
    | inr e ↦ rw e (
        LookupOnly-trans
          (extend_entry-frame now (who_can_access_key r.resource r.relation r.resource_type)
            r.target pc)
          (extend_entry-frame now (what_can_target_access_key r.target)
            (join_result r.resource r.relation r.resource_type)
            (extend_entry now (who_can_access_key r.resource r.relation r.resource_type) r.target
              pc)))
  ]

  pub get_results-frame :
      (now : ℕ) (k : Text) (pc : ProjectCache x) → LookupOnly pc (get_results now k pc).1
  unfolding get_results
  get_results-frame now k pc = elim (Bool-cases (is_disabled pc)) [
    | inl e ↦ rw e (LookupOnly-refl pc)
    | inr e ↦ rw e (get_entry-frame k pc)
  ]

  pub set_results-frame :
      (now : ℕ) (k : Text) (results : List Text) (pc : ProjectCache x)
      → LookupOnly pc (set_results now k results pc)
  unfolding set_results add_entry
  set_results-frame now k results pc = elim (Bool-cases (is_disabled pc)) [
    | inl e ↦ rw e (LookupOnly-refl pc)
    | inr e ↦ elim (Bool-cases (ltb_ℤ pc.lookup_max_result (pos (length results)))) [
      | inl big ↦ rw (e, big) (LookupOnly-refl pc)
      | inr small ↦ rw (e, small) (record { lookup_cache = _; entries = _; same = refl })
    ]
  ]

  pub invalidate-frame : (pc : ProjectCache x) → LookupOnly pc (invalidate_lookup_cache pc)
  unfolding invalidate_lookup_cache
  invalidate-frame pc = elim (Bool-cases (is_disabled pc)) [
    | inl e ↦ rw e (LookupOnly-refl pc)
    | inr e ↦ rw e (record { lookup_cache = _; entries = _; same = refl })
  ]

  pub get_wca-frame :
      (now : ℕ) (resource relation_definition namespace : Text) (pc : ProjectCache x)
      → LookupOnly pc (get_who_can_access_cached now resource relation_definition namespace pc).1
  unfolding get_who_can_access_cached
  get_wca-frame now resource relation_definition namespace pc =
      get_results-frame now (who_can_access_key resource relation_definition namespace) pc

  pub get_wcta-frame :
      (now : ℕ) (target : Text) (pc : ProjectCache x)
      → LookupOnly pc (get_what_can_target_access_cached now target pc).1
  unfolding get_what_can_target_access_cached
  get_wcta-frame now target pc = get_results-frame now (what_can_target_access_key target) pc

  pub set_wca-frame :
      (now : ℕ) (resource relation_definition namespace : Text) (targets : List Text)
      (pc : ProjectCache x)
      → LookupOnly pc
          (set_who_can_access_cached now resource relation_definition namespace targets pc)
  unfolding set_who_can_access_cached
  set_wca-frame now resource relation_definition namespace targets pc =
      set_results-frame now (who_can_access_key resource relation_definition namespace) targets pc

  pub set_wcta-frame :
      (now : ℕ) (target : Text) (relations : List AuthzRelation) (pc : ProjectCache x)
      → LookupOnly pc (set_what_can_target_access_cached now target relations pc)
  unfolding set_what_can_target_access_cached
  set_wcta-frame now target relations pc =
      set_results-frame now (what_can_target_access_key target) (format_results relations) pc
