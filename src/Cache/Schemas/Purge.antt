-- ===== src/Cache/Schemas/Purge.antt =====
-- What a purge leaves: nothing, in any of the three caches.
use authzcache.Base.{
  ℕ, ◌≡◌, refl, ap, not, ◌&&◌, [], Option, none, some, inl, inr, arith, Text, is_some, is_empty,
  Bool-cases,
}
use authzcache.Sdk.{Schema}
use authzcache.Direct.Both.{peek-purge_direct, purge_direct-empty}
use authzcache.Cache.{Externals, ExternalLaws, ProjectCache}
use authzcache.Cache.Schemas.Loaded.{Loaded, set_schema-Loaded}
use authzcache.Cache.Schemas.{
  set_schema, purge_lookup, purge_lookups, purge_relation_caches, update_cache_with_schema,
  ensure_schema_loaded, purge_all_caches,
}

module _ {x : Externals} (laws : ExternalLaws x) where
  -- No grant and no lookup result is cached.
  pub record IsPurged (pc : ProjectCache x) : Type 0 where
    pub no_direct : (k : Text) → laws.grants.peek pc.direct.cached k ≡ none
    pub no_indirect : (k : Text) → laws.grants.peek pc.indirect k ≡ none
    pub no_lookup :
        (s : x.lookups.State) (k : Text) → pc.lookup_cache ≡ some s → laws.lookups.peek s k ≡ none
    pub no_key : pc.direct.resources ≡ [] × pc.direct.targets ≡ [] × pc.direct.components ≡ []

  purge_lookup-none :
      (o : Option x.lookups.State) (s : x.lookups.State) (k : Text)
      → purge_lookup x o ≡ some s
      → laws.lookups.peek s k ≡ none
  unfolding purge_lookup
  purge_lookup-none none s k e = absurd (ground arith)
  purge_lookup-none (some s₀) s k e = ground (arith, laws.lookups.peek_purge s₀ k)

  purge_relation_caches-IsPurged : (pc : ProjectCache x) → IsPurged (purge_relation_caches pc)
  unfolding purge_relation_caches purge_lookups
  purge_relation_caches-IsPurged pc = record {
    no_direct = peek-purge_direct laws.grants pc.direct;
    no_indirect = laws.grants.peek_purge pc.indirect;
    no_lookup = λ s k e. purge_lookup-none pc.lookup_cache s k e;
    no_key =
        let e = purge_direct-empty laws.grants pc.direct in
        (ap (λ d. d.resources) e, ap (λ d. d.targets) e, ap (λ d. d.components) e);
  }

  -- a purge keeps what is loaded
  purged-Loaded :
      (schema : Option Schema) (pc : ProjectCache x)
      → Loaded schema pc
      → Loaded schema (purge_relation_caches pc)
  unfolding purge_relation_caches purge_lookups
  purged-Loaded none pc h = h
  purged-Loaded (some s) pc h = h

  -- A schema update leaves nothing cached, and the new schema loaded: the schema, its version, and
  -- under each id the program of the last condition of the schema with this id that compiles, and
  -- nothing if none does. An update to no schema leaves no schema, no version and no program.
  pub update_cache_with_schema-IsPurged :
      (schema : Option Schema) (pc : ProjectCache x)
      → IsPurged (update_cache_with_schema schema pc)
        × Loaded schema (update_cache_with_schema schema pc)
  unfolding update_cache_with_schema
  update_cache_with_schema-IsPurged schema pc = (
    purge_relation_caches-IsPurged (set_schema schema pc),
    purged-Loaded schema (set_schema schema pc) (set_schema-Loaded schema pc),
  )

  -- `purgeAllCaches` leaves nothing cached and no schema loaded, and of the polling state it sets the
  -- last poll time only.
  pub purge_all_caches-IsPurged :
      (now : ℕ) (pc : ProjectCache x)
      → IsPurged (purge_all_caches now pc)
        × Loaded none (purge_all_caches now pc)
        × ((purge_all_caches now pc).remote ≡ record pc.remote { last_poll_time = now })
  unfolding purge_all_caches
  purge_all_caches-IsPurged now pc =
      let p = purge_relation_caches-IsPurged (set_schema none pc) in
      (
        record {
          no_direct = p.no_direct;
          no_indirect = p.no_indirect;
          no_lookup = p.no_lookup;
          no_key = p.no_key;
        },
        (refl, refl, refl),
        refl,
      )

  -- Loading or dropping a schema leaves the caches alone.
  pub set_schema-caches :
      (schema : Option Schema) (pc : ProjectCache x)
      → ((set_schema schema pc).direct ≡ pc.direct)
        × ((set_schema schema pc).indirect ≡ pc.indirect)
        × ((set_schema schema pc).remote ≡ pc.remote)
  unfolding set_schema
  set_schema-caches none pc = (refl, refl, refl)
  set_schema-caches (some s) pc = (refl, refl, refl)

  pub ensure-direct :
      (schema : Option Schema) (pc : ProjectCache x)
      → (ensure_schema_loaded schema pc).direct ≡ pc.direct
  unfolding ensure_schema_loaded
  ensure-direct schema pc =
      elim (Bool-cases (is_some pc.schema && not (is_empty pc.loaded_version))) [
        | inl e ↦ rw e
        | inr e ↦ rw e (set_schema-caches schema pc).0
      ]

  pub ensure-indirect :
      (schema : Option Schema) (pc : ProjectCache x)
      → (ensure_schema_loaded schema pc).indirect ≡ pc.indirect
  unfolding ensure_schema_loaded
  ensure-indirect schema pc =
      elim (Bool-cases (is_some pc.schema && not (is_empty pc.loaded_version))) [
        | inl e ↦ rw e
        | inr e ↦ rw e (set_schema-caches schema pc).1
      ]
