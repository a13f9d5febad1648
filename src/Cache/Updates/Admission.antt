-- ===== src/Cache/Updates/Admission.antt =====
-- Which checks `UpdateCacheWithChecks` caches, and that it caches nothing else.
use authzcache.Base.{
  ℕ, ◌≡◌, refl, sym, ◌∙◌, ap, subst, Bool, true, false, ◌&&◌, List, [], ◌∷◌, Option, none, some,
  ◌⊎◌, inl, inr, arith, Text, text_eq, nat_eq, eq_iff, is_some, is_empty, All, Bool-cases,
}
use authzcache.Base.Map.{Map, lookup}
use authzcache.Sdk.{Relation, Check, CheckInfo}
use authzcache.Direct.{CachedGrant, DirectCache, key, add_direct_relation}
use authzcache.Direct.Eviction.{
  IsIndexed, add_direct_relation-IsIndexed, cached-add_direct_relation,
}
use authzcache.Cache.{Externals, ExternalLaws, ProjectCache}
use authzcache.Cache.Updates.{
  has_all_compiled_conditions, schema_skew, incomplete, grant_of, store_grant, store_check,
  update_cache_with_checks,
}

abbrev pub AllCompiled {ℓ} : {A : Type ℓ} → Map ℕ A → List ℕ → Type 0
AllCompiled compiled = All (λ id. is_some (lookup id compiled) ≡ true)

module _ {x : Externals} where
  -- The grant that a check gives, and why it may be cached.
  pub data Admitted (c : Check) (pc : ProjectCache x) (g : CachedGrant) : Type 0 where
    plain :
        c.info.fact_used ≡ false
        → c.info.conditional ≡ false
        → g ≡ record { allowed = c.allowed; cond = none }
        → Admitted c pc g
    certified :
        c.info.fact_used ≡ false
        → c.info.conditional ≡ true
        → c.info.schema_version ≡ pc.loaded_version
        → (is_empty c.info.true_conditions && is_empty c.info.false_conditions) ≡ false
        → AllCompiled pc.compiled c.info.true_conditions
        → AllCompiled pc.compiled c.info.false_conditions
        → is_empty c.info.missing_context ≡ true
        → is_empty c.info.conditional_err ≡ true
        → g ≡ record {
          allowed = c.allowed;
          cond = some (record {
            true_conds = c.info.true_conditions;
            false_conds = c.info.false_conditions;
          });
        }
        → Admitted c pc g

  compiled_of :
      (pc : ProjectCache x) (ids : List ℕ)
      → has_all_compiled_conditions pc ids ≡ true
      → AllCompiled pc.compiled ids
  unfolding has_all_compiled_conditions
  compiled_of pc [] h = tt
  compiled_of pc (id ∷ ids) h = (ground arith, compiled_of pc ids (ground arith))

  schema_skew-false :
      (info : CheckInfo) (pc : ProjectCache x)
      → schema_skew info pc ≡ false
      → (info.schema_version ≡ pc.loaded_version)
        × ((is_empty info.true_conditions && is_empty info.false_conditions) ≡ false)
        × (has_all_compiled_conditions pc info.true_conditions ≡ true)
        × (has_all_compiled_conditions pc info.false_conditions ≡ true)
  unfolding schema_skew
  schema_skew-false info pc h = ground (arith, eq_iff info.schema_version pc.loaded_version)

  grant_of-conditional :
      (c : Check) (pc : ProjectCache x) {g : CachedGrant}
      → c.info.conditional ≡ true
      → grant_of c pc ≡ some g
      → (c.info.fact_used ≡ false)
        × (schema_skew c.info pc ≡ false)
        × (incomplete c.info ≡ false)
        × (g ≡ record {
          allowed = c.allowed;
          cond = some (record {
            true_conds = c.info.true_conditions;
            false_conds = c.info.false_conditions;
          });
        })
  unfolding grant_of
  grant_of-conditional c pc cond e = ground arith

  -- A check gives a grant to cache only if no fact was used for it; a conditional check only if it was
  -- made under the loaded schema version, names a condition, has all its conditions compiled and
  -- complete context, and then the grant carries its certificate.
  pub grant_of-Admitted :
      (c : Check) (pc : ProjectCache x) (g : CachedGrant) → grant_of c pc ≡ some g → Admitted c pc g
  unfolding grant_of incomplete
  grant_of-Admitted c pc g e = elim (Bool-cases c.info.conditional) [
    | inl cond ↦
        let (unused, fits, complete, built) = grant_of-conditional c pc cond e in
        let (version, named, trues, falses) = schema_skew-false c.info pc fits in
        certified unused cond version named (compiled_of pc c.info.true_conditions trues)
          (compiled_of pc c.info.false_conditions falses) (ground arith) (ground arith) built
    | inr cond ↦ plain (ground arith) cond (ground arith)
  ]

  store_grant-fields :
      (c : Check) (o : Option CachedGrant) (pc : ProjectCache x)
      → ((store_grant c o pc).compiled ≡ pc.compiled)
        × ((store_grant c o pc).loaded_version ≡ pc.loaded_version)
  unfolding store_grant
  store_grant-fields c none pc = (refl, refl)
  store_grant-fields c (some g) pc = elim (Bool-cases c.info.direct) [
    | inl d ↦ rw d (refl, refl)
    | inr d ↦ rw d (refl, refl)
  ]

  Admitted-transport :
      (c : Check) (pc pc' : ProjectCache x) (g : CachedGrant)
      → pc'.compiled ≡ pc.compiled
      → pc'.loaded_version ≡ pc.loaded_version
      → Admitted c pc' g
      → Admitted c pc g
  Admitted-transport c pc pc' g e f (plain u n b) = plain u n b
  Admitted-transport c pc pc' g e f (certified u n v m t s mc ce b) =
      certified u n (v ∙ f) m (subst (λ compiled. AllCompiled compiled c.info.true_conditions) e t)
        (subst (λ compiled. AllCompiled compiled c.info.false_conditions) e s) mc ce b

  -- A check of the list, of the given kind, gave the grant under the key.
  abbrev pub From : ProjectCache x → Bool → Text → CachedGrant → List Check → Type 0
  From pc direct k g [] = ⊥
  From pc direct k g (c ∷ cs) =
      ((key c.relation ≡ k) × (c.info.direct ≡ direct) × Admitted c pc g) ⊎ From pc direct k g cs

  From-transport :
      (pc pc' : ProjectCache x) (direct : Bool) (k : Text) (g : CachedGrant) (cs : List Check)
      → pc'.compiled ≡ pc.compiled
      → pc'.loaded_version ≡ pc.loaded_version
      → From pc' direct k g cs
      → From pc direct k g cs
  From-transport pc pc' direct k g [] e f h = absurd h
  From-transport pc pc' direct k g (c ∷ cs) e f (inl (same, kind, a)) =
      inl (same, kind, Admitted-transport c pc pc' g e f a)
  From-transport pc pc' direct k g (c ∷ cs) e f (inr h) =
      inr (From-transport pc pc' direct k g cs e f h)

module _ {x : Externals} (laws : ExternalLaws x) where
  open laws.grants use {peek}

  -- the cache that holds grants of a kind
  abbrev pub store_of : Bool → ProjectCache x → x.grants.State
  store_of true pc = pc.direct.cached
  store_of false pc = pc.indirect

  add-origin :
      (s : x.grants.State) (k j : Text) (v w : CachedGrant)
      → peek (x.grants.add s k v).0 j ≡ some w
      → (peek s j ≡ some w) ⊎ ((k ≡ j) × (v ≡ w))
  add-origin s k j v w h =
      ground
        (arith, laws.grants.peek_add_self s k v, laws.grants.peek_add_other s k j v, eq_iff k j)

  add_direct-origin :
      (r : Relation) (k : Text) (v w : CachedGrant) (d : DirectCache x.grants)
      → peek (add_direct_relation r v d).cached k ≡ some w
      → (peek d.cached k ≡ some w) ⊎ ((key r ≡ k) × (v ≡ w))
  add_direct-origin r k v w d h =
      add-origin d.cached (key r) k v w
        (ap (λ s. peek s k) (sym (cached-add_direct_relation laws.grants r v d)) ∙ h)

  store_grant-Origin :
      (c : Check) (o : Option CachedGrant) (pc : ProjectCache x) (direct : Bool) (k : Text)
      (g : CachedGrant)
      → peek (store_of direct (store_grant c o pc)) k ≡ some g
      → (peek (store_of direct pc) k ≡ some g)
        ⊎ ((key c.relation ≡ k) × (c.info.direct ≡ direct) × (o ≡ some g))
  unfolding store_grant
  store_grant-Origin c none pc direct k g h = inl h
  store_grant-Origin c (some v) pc true k g h =
      ground (arith, add_direct-origin c.relation k v g pc.direct)
  store_grant-Origin c (some v) pc false k g h =
      ground (arith, add-origin pc.indirect (key c.relation) k v g)

  store_grant-Indexed :
      (c : Check) (o : Option CachedGrant) (pc : ProjectCache x)
      → IsIndexed laws.grants pc.direct
      → IsIndexed laws.grants (store_grant c o pc).direct
  unfolding store_grant
  store_grant-Indexed c none pc h = h
  store_grant-Indexed c (some g) pc h = elim (Bool-cases c.info.direct) [
    | inl d ↦ rw d (add_direct_relation-IsIndexed laws.grants c.relation g pc.direct h)
    | inr d ↦ rw d h
  ]

  -- `UpdateCacheWithChecks` caches nothing of its own: a grant that is cached afterwards was cached
  -- before under its key, or comes from a check of the list with this key and this kind (direct or
  -- not) that may be cached under the schema that is loaded.
  pub update_cache_with_checks-Origin :
      (cs : List Check) (pc : ProjectCache x) (direct : Bool) (k : Text) (g : CachedGrant)
      → peek (store_of direct (update_cache_with_checks cs pc)) k ≡ some g
      → (peek (store_of direct pc) k ≡ some g) ⊎ From pc direct k g cs
  unfolding update_cache_with_checks store_check
  update_cache_with_checks-Origin [] pc direct k g h = inl h
  update_cache_with_checks-Origin (c ∷ cs) pc direct k g h =
      let next = store_grant c (grant_of c pc) pc in
      let (same, version) = store_grant-fields c (grant_of c pc) pc in
      elim (update_cache_with_checks-Origin cs next direct k g h) [
        | inl before ↦ elim (store_grant-Origin c (grant_of c pc) pc direct k g before) [
          | inl old ↦ inl old
          | inr (at, kind, gives) ↦ inr (inl (at, kind, grant_of-Admitted c pc g gives))
        ]
        | inr later ↦ inr (inr (From-transport pc next direct k g cs same version later))
      ]

  pub update_cache_with_checks-Indexed :
      (cs : List Check) (pc : ProjectCache x)
      → IsIndexed laws.grants pc.direct
      → IsIndexed laws.grants (update_cache_with_checks cs pc).direct
  unfolding update_cache_with_checks store_check
  update_cache_with_checks-Indexed [] pc h = h
  update_cache_with_checks-Indexed (c ∷ cs) pc h =
      update_cache_with_checks-Indexed cs (store_grant c (grant_of c pc) pc)
        (store_grant-Indexed c (grant_of c pc) pc h)
