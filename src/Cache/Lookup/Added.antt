-- ===== src/Cache/Lookup/Added.antt =====
-- What `addToLookupCache` does to the results that are cached: it adds to them and takes nothing away.
use mathlib.Core.Path.{ap₂}
use authzcache.Base.{
  ℕ, ◌≡◌, refl, sym, ◌∙◌, subst, true, Option, some, Text, text_eq, ltb, contains,
}
use authzcache.Sdk.{Relation}
use authzcache.Cache.{Externals, ExternalLaws, ProjectCache, LookupEntry}
use authzcache.Cache.Lookup.{
  get_entry, append_result, extend_entry, add_to_lookup_cache, who_can_access_key,
  what_can_target_access_key, join_result,
}
use authzcache.Cache.Lookup.Fresh.{on-enabled}
use authzcache.Cache.Lookup.Extended.{
  Grown, Grown-trans, Listing, get_entry-found, find_entry-Coherent, find_entry-Listing,
  append_result-Listing, append_result-adds,
}

-- the keys of the entries that a relation belongs to, and its value in the second
abbrev pub who_key : Relation → Text
who_key r = who_can_access_key r.resource r.relation r.resource_type

abbrev pub what_key : Relation → Text
what_key r = what_can_target_access_key r.target

abbrev pub what_value : Relation → Text
what_value r = join_result r.resource r.relation r.resource_type

module _ {x : Externals} (laws : ExternalLaws x) where
  -- Whatever is added under any key, a listing stays and its results only grow.
  extend-Listing :
      (now : ℕ) (j v k : Text) (pc : ProjectCache x) (l : Listing laws k pc)
      → (l' : Listing laws k (extend_entry now j v pc)) × Grown l.entry l'.entry
  unfolding extend_entry get_entry
  extend-Listing now j v k pc l =
      let (l₁, same, _) = find_entry-Listing laws k j pc pc.lookup_cache l refl in
      let (l₂, grown) =
        append_result-Listing laws now v k (get_entry j pc).0 (get_entry j pc).1 l₁
          (find_entry-Coherent laws j pc pc.lookup_cache) in
      (l₂, subst (λ e. Grown e l₂.entry) same grown)

  -- A value that is added under the key of a listing that has not expired is there.
  extend-adds :
      (now : ℕ) (v k : Text) (pc : ProjectCache x) (l : Listing laws k pc)
      → ltb now l.entry.expires_at ≡ true
      → (l' : Listing laws k (extend_entry now k v pc)) × Grown l.entry l'.entry
        × (contains v l'.entry.results ≡ true)
  unfolding extend_entry get_entry
  extend-adds now v k pc l live =
      let (l₁, same, here) = find_entry-Listing laws k k pc pc.lookup_cache l refl in
      let found : (get_entry k pc).0 ≡ some (l₁.address, l₁.entry) =
        get_entry-found laws k pc l ∙ ap₂ (λ a e. some (a, e)) (sym here) (sym same) in
      let adds =
        append_result-adds laws now v k (get_entry k pc).1 l₁
          (subst (λ e. ltb now e.expires_at ≡ true) (sym same) live) in
      let grown : (l' : Listing laws k
            (append_result now v (some (l₁.address, l₁.entry)) (get_entry k pc).1))
          × Grown l.entry l'.entry
          × (contains v l'.entry.results ≡ true) =
        (adds.0, subst (λ e. Grown e adds.0.entry) same adds.1, adds.2) in
      subst {A = Option (ℕ × LookupEntry)}
        (λ o.
          (l' : Listing laws k (append_result now v o (get_entry k pc).1)) × Grown l.entry l'.entry
          × (contains v l'.entry.results ≡ true))
        (sym found) grown

  module _ (now : ℕ) (r : Relation) where
    add_to-eq :
        (k : Text) (pc : ProjectCache x) (l : Listing laws k pc)
        → add_to_lookup_cache now r pc
          ≡ extend_entry now (what_key r) (what_value r) (extend_entry now (who_key r) r.target pc)
    unfolding add_to_lookup_cache
    add_to-eq k pc l = rw (on-enabled laws pc l.state l.on l.there)

    -- `addToLookupCache` keeps what is listed.
    pub add_to_lookup_cache-Listing :
        (k : Text) (pc : ProjectCache x) (l : Listing laws k pc)
        → (l' : Listing laws k (add_to_lookup_cache now r pc)) × Grown l.entry l'.entry
    add_to_lookup_cache-Listing k pc l =
        let (l₁, g₁) = extend-Listing now (who_key r) r.target k pc l in
        let (l₂, g₂) =
          extend-Listing now (what_key r) (what_value r) k
            (extend_entry now (who_key r) r.target pc) l₁ in
        subst (λ s. (l' : Listing laws k s) × Grown l.entry l'.entry) (sym (add_to-eq k pc l))
          (l₂, Grown-trans _ _ _ g₁ g₂)

    -- A live listing has the value that is added under its key.
    abbrev pub Has : Text → Text → LookupEntry → ProjectCache x → Type 0
    Has k v e pc = (l : Listing laws k pc) × Grown e l.entry × (contains v l.entry.results ≡ true)

    pub add_to_lookup_cache-who :
        (pc : ProjectCache x) (l : Listing laws (who_key r) pc)
        → ltb now l.entry.expires_at ≡ true
        → Has (who_key r) r.target l.entry (add_to_lookup_cache now r pc)
    add_to_lookup_cache-who pc l live =
        let (l₁, g₁, has) = extend-adds now r.target (who_key r) pc l live in
        let (l₂, g₂) =
          extend-Listing now (what_key r) (what_value r) (who_key r)
            (extend_entry now (who_key r) r.target pc) l₁ in
        subst (Has (who_key r) r.target l.entry) (sym (add_to-eq (who_key r) pc l))
          (l₂, Grown-trans _ _ _ g₁ g₂, g₂.all_there r.target has)

    pub add_to_lookup_cache-what :
        (pc : ProjectCache x) (l : Listing laws (what_key r) pc)
        → ltb now l.entry.expires_at ≡ true
        → Has (what_key r) (what_value r) l.entry (add_to_lookup_cache now r pc)
    add_to_lookup_cache-what pc l live =
        let (l₁, g₁) = extend-Listing now (who_key r) r.target (what_key r) pc l in
        let (l₂, g₂, has) =
          extend-adds now (what_value r) (what_key r) (extend_entry now (who_key r) r.target pc) l₁
            (subst (λ t. ltb now t ≡ true) (sym g₁.same_expiry) live) in
        subst (Has (what_key r) (what_value r) l.entry) (sym (add_to-eq (what_key r) pc l))
          (l₂, Grown-trans _ _ _ g₁ g₂, has)
