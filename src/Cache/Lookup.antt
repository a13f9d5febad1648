-- ===== src/Cache/Lookup.antt =====
-- The cache of `WhoCanAccess` and `WhatCanTargetAccess` results: keys, the two getters, the two
-- setters, the invalidation and `addToLookupCache`. The cache holds addresses of entries, because
-- `addToLookupCache` writes through the pointer that `Get` returned.
pub mod Frame
pub mod RoundTrip
pub mod Fresh
pub mod Extended
pub mod Added
use authzcache.Base.{
  ℕ, ◌+◌, Bool, not, ◌||◌, List, [], ◌∷◌, ◌++◌, map, Option, none, some, Text, text_eq, ltb, eqb,
  is_some, length, get_elem?, set, contains, if◌then◌else◌, ◌>>=◌,
}
use authzcache.Base.Int.{pos, ltb_ℤ}
use authzcache.Sdk.{Relation, AuthzRelation}
use authzcache.Lru.{Lru}
use authzcache.Direct.{colon}
use authzcache.Cache.Schemas.{purge_lookups}
use authzcache.Cache.{Externals, ProjectCache, LookupEntry}

abbrev pub bar : ℕ
bar = b'|'

unfoldable pub who_can_access_key : Text → Text → Text → Text
who_can_access_key resource relation_definition namespace =
    b'w'
    ∷ b'c'
    ∷ b'a'
    ∷ colon
    ∷ (resource ++ (colon ∷ (relation_definition ++ (colon ∷ namespace))))

unfoldable pub what_can_target_access_key : Text → Text
what_can_target_access_key target = b'w' ∷ b'c' ∷ b't' ∷ b'a' ∷ colon ∷ target

-- `r.Resource + "|" + r.RelationDefinition + "|" + r.Namespace`
pub join_result : Text → Text → Text → Text
join_result resource relation_definition namespace =
    resource ++ (bar ∷ (relation_definition ++ (bar ∷ namespace)))

-- the text before and after the first separator
pub cut : ℕ → Text → Option (Text × Text)
cut sep [] = none
cut sep (c ∷ s) =
    let rest = (do (before, after) ← cut sep s; some (c ∷ before, after)) in
    if eqb c sep then some ([], s) else rest

-- `strings.SplitN(r, "|", 3)`, where it has three parts
pub split_result : Text → Option (Text × Text × Text)
unfolding cut
split_result s = do
  (resource, rest) ← cut bar s
  (relation_definition, namespace) ← cut bar rest
  some (resource, relation_definition, namespace)

-- the relation that the getter builds; the fields that it does not set are empty
pub parsed_relation : Text → Text × Text × Text → AuthzRelation
parsed_relation target (resource, relation_definition, namespace) = record {
  resource = resource;
  relation_definition = relation_definition;
  namespace = namespace;
  target = target;
  target_set_resource = [];
  target_set_relation_definition = [];
  target_set_relation_definition_namespace = [];
}

-- the loop of the getter: an entry without three parts is skipped
pub parse_results : Text → List Text → List AuthzRelation
unfolding split_result parsed_relation
parse_results target [] = []
parse_results target (r ∷ rs) = elim (split_result r) [
  | none ↦ parse_results target rs
  | some parts ↦ parsed_relation target parts ∷ parse_results target rs
]

unfoldable pub format_results : List AuthzRelation → List Text
unfolding join_result
format_results = map (λ r. join_result r.resource r.relation_definition r.namespace)

-- a hit whose entry has not expired (`time.Now().After(entry.ExpiresAt)`)
fresh_results : ℕ → Option (ℕ × LookupEntry) → Option (List Text)
fresh_results now none = none
fresh_results now (some (_, entry)) = if ltb entry.expires_at now then none else some entry.results

-- `len(relations) == 0` is a miss
non_empty : List AuthzRelation → Option (List AuthzRelation)
non_empty [] = none
non_empty (r ∷ rs) = some (r ∷ rs)

store_address : (lru : Lru ℕ) → Text → ℕ → Option lru.State → Option lru.State
store_address lru k address none = none
store_address lru k address (some s) = some (lru.add s k address).0

module _ {x : Externals} where
  -- `!pc.lookupCacheEnabled || pc.lookupCache == nil`
  abbrev pub is_disabled : ProjectCache x → Bool
  is_disabled pc = not pc.lookup_enabled || not (is_some pc.lookup_cache)

  -- `lookupCache.Get`: the address and the entry
  pub find_entry :
      Text → ProjectCache x → Option x.lookups.State → Option (ℕ × LookupEntry) × ProjectCache x
  find_entry k pc none = (none, pc)
  find_entry k pc (some s) =
      let got = x.lookups.get s k in
      (
        do address ← got.0; entry ← get_elem? pc.entries address; some (address, entry),
        record pc { lookup_cache = some got.1 },
      )

  pub get_entry : Text → ProjectCache x → Option (ℕ × LookupEntry) × ProjectCache x
  unfolding find_entry
  get_entry k pc = find_entry k pc pc.lookup_cache

  pub get_results : ℕ → Text → ProjectCache x → Option (List Text) × ProjectCache x
  unfolding get_entry fresh_results
  get_results now k pc =
      if is_disabled pc
      then (none, pc)
      else let (found, pc') = get_entry k pc in (fresh_results now found, pc')

  pub get_who_can_access_cached :
      ℕ → Text → Text → Text → ProjectCache x → Option (List Text) × ProjectCache x
  unfolding get_results
  get_who_can_access_cached now resource relation_definition namespace pc =
      get_results now (who_can_access_key resource relation_definition namespace) pc

  pub get_what_can_target_access_cached :
      ℕ → Text → ProjectCache x → Option (List AuthzRelation) × ProjectCache x
  unfolding get_results non_empty
  get_what_can_target_access_cached now target pc =
      let (found, pc') = get_results now (what_can_target_access_key target) pc in
      (found >>= (λ results. non_empty (parse_results target results)), pc')

  -- `lookupCache.Add` of a new entry
  add_entry : ℕ → Text → List Text → ProjectCache x → ProjectCache x
  unfolding store_address
  add_entry now k results pc = record pc {
    entries =
        pc.entries
        ++ record { results = results; cached_at = now; expires_at = now + pc.lookup_ttl } ∷ [];
    lookup_cache = store_address x.lookups k (length pc.entries) pc.lookup_cache;
  }

  pub set_results : ℕ → Text → List Text → ProjectCache x → ProjectCache x
  unfolding add_entry
  set_results now k results pc =
      if is_disabled pc
      then pc
      else if ltb_ℤ pc.lookup_max_result (pos (length results))
      then pc
      else add_entry now k results pc

  pub set_who_can_access_cached :
      ℕ → Text → Text → Text → List Text → ProjectCache x → ProjectCache x
  unfolding set_results
  set_who_can_access_cached now resource relation_definition namespace targets pc =
      set_results now (who_can_access_key resource relation_definition namespace) targets pc

  pub set_what_can_target_access_cached :
      ℕ → Text → List AuthzRelation → ProjectCache x → ProjectCache x
  unfolding set_results
  set_what_can_target_access_cached now target relations pc =
      set_results now (what_can_target_access_key target) (format_results relations) pc

  pub invalidate_lookup_cache : ProjectCache x → ProjectCache x
  unfolding purge_lookups
  invalidate_lookup_cache pc = if is_disabled pc then pc else purge_lookups pc

  -- `entry.Results = append(entry.Results, value)`, unless it is there or the entry has expired
  pub append_result : ℕ → Text → Option (ℕ × LookupEntry) → ProjectCache x → ProjectCache x
  append_result now value none pc = pc
  append_result now value (some (address, entry)) pc =
      if ltb now entry.expires_at
      then if contains value entry.results then pc else record pc {
        entries = set pc.entries address (record entry { results = entry.results ++ value ∷ [] });
      }
      else pc

  pub extend_entry : ℕ → Text → Text → ProjectCache x → ProjectCache x
  unfolding get_entry append_result
  extend_entry now k value pc =
      let (found, pc') = get_entry k pc in append_result now value found pc'

  pub add_to_lookup_cache : ℕ → Relation → ProjectCache x → ProjectCache x
  unfolding extend_entry
  add_to_lookup_cache now r pc =
      if is_disabled pc
      then pc
      else extend_entry now (what_can_target_access_key r.target)
          (join_result r.resource r.relation r.resource_type)
          (extend_entry now (who_can_access_key r.resource r.relation r.resource_type) r.target pc)
