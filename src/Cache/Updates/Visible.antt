-- ===== src/Cache/Updates/Visible.antt =====
-- What a creation of relations does to the cached lookup results.
use authzcache.Base.{
  ℕ, ◌≡◌, sym, ◌∙◌, subst, true, false, List, [], ◌∷◌, ◌++◌, Option, some, Text, text_eq, ltb,
  contains, arith,
}
use authzcache.Sdk.{Relation}
use authzcache.Cache.{Externals, ExternalLaws, ProjectCache, LookupEntry}
use authzcache.Cache.Lookup.{get_results, add_to_lookup_cache}
use authzcache.Cache.Lookup.Fresh.{get_results-found}
use authzcache.Cache.Lookup.Extended.{Grown, Grown-refl, Grown-trans, Listing}
use authzcache.Cache.Lookup.Added.{
  who_key, what_key, what_value, Has, add_to_lookup_cache-Listing, add_to_lookup_cache-who,
  add_to_lookup_cache-what,
}
use authzcache.Cache.Updates.{
  purge_indirect, sweep_relation, added_loop, update_cache_with_added_relations,
}

-- The two kinds of cached lookup: `WhoCanAccess` and `WhatCanTargetAccess`.
pub data Side : Type 0 where
  of_who : Side
  of_what : Side

-- the key and the value of a relation in a lookup
unfoldable pub side_key : Side → Relation → Text
side_key of_who r = who_key r
side_key of_what r = what_key r

unfoldable pub side_value : Side → Relation → Text
side_value of_who r = r.target
side_value of_what r = what_value r

module _ {x : Externals} (laws : ExternalLaws x) where
  -- a sweep and a purge of grants keep what is listed
  swept-Listing :
      (r : Relation) (k : Text) (pc : ProjectCache x)
      → Listing laws k pc
      → Listing laws k (sweep_relation r pc)
  unfolding sweep_relation
  swept-Listing r k pc l = record {
    state = l.state;
    on = l.on;
    there = l.there;
    address = l.address;
    entry = l.entry;
    hit = l.hit;
    at = l.at;
  }

  purged-Listing :
      (k : Text) (pc : ProjectCache x) → Listing laws k pc → Listing laws k (purge_indirect pc)
  unfolding purge_indirect
  purged-Listing k pc l = record {
    state = l.state;
    on = l.on;
    there = l.there;
    address = l.address;
    entry = l.entry;
    hit = l.hit;
    at = l.at;
  }

  module _ (now : ℕ) where
    loop-Listing :
        (rs : List Relation) (k : Text) (pc : ProjectCache x) (l : Listing laws k pc)
        → (l' : Listing laws k (added_loop now rs pc)) × Grown l.entry l'.entry
    unfolding added_loop swept-Listing
    loop-Listing [] k pc l = (l, Grown-refl l.entry)
    loop-Listing (r ∷ rs) k pc l =
        let (l₁, g₁) =
          add_to_lookup_cache-Listing laws now r k (sweep_relation r pc) (swept-Listing r k pc l) in
        let (l₂, g₂) = loop-Listing rs k (add_to_lookup_cache now r (sweep_relation r pc)) l₁ in
        (l₂, Grown-trans _ _ _ g₁ g₂)

    -- The loop adds a value under a key if one of its turns does.
    loop-Has :
        (before rest : List Relation) (r : Relation) (k v : Text)
        → ((pc : ProjectCache x) (l : Listing laws k pc)
            → ltb now l.entry.expires_at ≡ true
            → Has laws now r k v l.entry (add_to_lookup_cache now r pc))
        → (pc : ProjectCache x) (l : Listing laws k pc) → ltb now l.entry.expires_at ≡ true
        → Has laws now r k v l.entry (added_loop now (before ++ r ∷ rest) pc)
    unfolding added_loop swept-Listing
    loop-Has [] rest r k v adds pc l live =
        let (l₁, g₁, has) = adds (sweep_relation r pc) (swept-Listing r k pc l) live in
        let (l₂, g₂) = loop-Listing rest k (add_to_lookup_cache now r (sweep_relation r pc)) l₁ in
        (l₂, Grown-trans _ _ _ g₁ g₂, g₂.all_there v has)
    loop-Has (p ∷ before) rest r k v adds pc l live =
        let (l₁, g₁) =
          add_to_lookup_cache-Listing laws now p k (sweep_relation p pc) (swept-Listing p k pc l) in
        let (l₂, g₂, has) =
          loop-Has before rest r k v adds (add_to_lookup_cache now p (sweep_relation p pc)) l₁
            (subst (λ t. ltb now t ≡ true) (sym g₁.same_expiry) live) in
        (l₂, Grown-trans _ _ _ g₁ g₂, has)

  added-Has :
      (now : ℕ) (before rest : List Relation) (r : Relation) (k v : Text)
      → ((pc : ProjectCache x) (l : Listing laws k pc)
          → ltb now l.entry.expires_at ≡ true
          → Has laws now r k v l.entry (add_to_lookup_cache now r pc))
      → (pc : ProjectCache x) (l : Listing laws k pc) → ltb now l.entry.expires_at ≡ true
      → Has laws now r k v l.entry (update_cache_with_added_relations now (before ++ r ∷ rest) pc)
  unfolding update_cache_with_added_relations purge_indirect purged-Listing
  added-Has now [] rest r k v adds pc l live =
      loop-Has now [] rest r k v adds (purge_indirect pc) (purged-Listing k pc l) live
  added-Has now (p ∷ before) rest r k v adds pc l live =
      loop-Has now (p ∷ before) rest r k v adds (purge_indirect pc) (purged-Listing k pc l) live

  -- A result that is returned, with all that an entry had and a value.
  pub record Includes (e : LookupEntry) (v : Text) (got : Option (List Text)) : Type 0 where
    pub results : List Text
    pub returned : got ≡ some results
    pub added : contains v results ≡ true
    pub kept : (w : Text) → contains w e.results ≡ true → contains w results ≡ true

  includes :
      (later : ℕ) (k v : Text) (e : LookupEntry) (pc : ProjectCache x) (l : Listing laws k pc)
      → Grown e l.entry
      → contains v l.entry.results ≡ true
      → ltb e.expires_at later ≡ false
      → Includes e v (get_results later k pc).0
  includes later k v e pc l g has fresh = record {
    results = l.entry.results;
    returned =
        get_results-found laws later k pc l.state l.address l.entry l.on l.there l.hit l.at
        ∙ (let same = g.same_expiry in ground (arith, fresh, same));
    added = has;
    kept = g.all_there;
  }

  -- the lookup of the one kind, and what it adds under the relation's key
  added-visible :
      (now later : ℕ) (before rest : List Relation) (r : Relation) (side : Side)
      (pc : ProjectCache x) (l : Listing laws (side_key side r) pc)
      → ltb now l.entry.expires_at ≡ true
      → Has laws now r
          (side_key side r)
          (side_value side r)
          l.entry
          (update_cache_with_added_relations now (before ++ r ∷ rest) pc)
  unfolding side_key side_value
  added-visible now later before rest r of_who pc l live =
      added-Has now before rest r (who_key r) r.target (add_to_lookup_cache-who laws now r) pc l
        live
  added-visible now later before rest r of_what pc l live =
      added-Has now before rest r (what_key r) (what_value r) (add_to_lookup_cache-what laws now r)
        pc l live

  -- `UpdateCacheWithAddedRelations` makes a created relation visible in the cached lookups of either
  -- kind, whatever is cached for the other: if the lookup cache has an entry, not expired when the
  -- relations are created, for the resource, relation and resource type of one of them, then until
  -- that entry expires it is returned with the target of the relation; if it has such an entry for its
  -- target, with its resource, relation and type joined; and in both cases with everything that the
  -- entry had.
  pub created_visible :
      (now later : ℕ) (before rest : List Relation) (r : Relation) (side : Side)
      (pc : ProjectCache x) (l : Listing laws (side_key side r) pc)
      → ltb now l.entry.expires_at ≡ true
      → ltb l.entry.expires_at later ≡ false
      → Includes l.entry
          (side_value side r)
          (get_results later
            (side_key side r)
            (update_cache_with_added_relations now (before ++ r ∷ rest) pc)).0
  created_visible now later before rest r side pc l live fresh =
      let has = added-visible now later before rest r side pc l live in
      includes later (side_key side r) (side_value side r) l.entry _ has.0 has.1 has.2 fresh
