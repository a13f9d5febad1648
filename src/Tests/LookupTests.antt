-- ===== src/Tests/LookupTests.antt =====
-- The lookup cache at concrete inputs.
use authzcache.Base.{◌≡◌, refl, List, [], ◌∷◌, none, some, ◌+◌, ltb, map, if◌then◌else◌}
use authzcache.Cache.Lookup.{
  get_results, who_can_access_key, format_results, parse_results, get_who_can_access_cached,
  set_who_can_access_cached, get_what_can_target_access_cached, set_what_can_target_access_cached,
}
use authzcache.Cache.Lookup.RoundTrip.{parse-format, restored}
use authzcache.Cache.Lookup.Fresh.{get-set_cached}
use authzcache.Base.Map.{lookup}
use authzcache.Cache.{ProjectCache, LookupEntry}
use authzcache.Cache.Lookup.Added.{who_key}
use authzcache.Cache.Updates.{update_cache_with_added_relations}
use authzcache.Cache.Updates.Visible.{Includes, of_who, side_key, side_value, created_visible}
use authzcache.Tests.Concrete.{
  x, owns, folder, viewer, relate, accessible, laws, doc, user, group, owner, kind, fresh,
}

parse-format_example :
    parse_results user (format_results (accessible ∷ [])) ≡ map (restored user) (accessible ∷ [])
parse-format_example = parse-format user (accessible ∷ []) ((refl, refl), tt)

get-set_cached_example :
    ((get_who_can_access_cached 20 doc owner kind
        (set_who_can_access_cached 10 doc owner kind (user ∷ group ∷ []) fresh)).0
      ≡ (if ltb (10 + fresh.lookup_ttl) 20 then none else some (user ∷ group ∷ [])))
    × ((get_what_can_target_access_cached 20 user
          (set_what_can_target_access_cached 10 user (accessible ∷ []) fresh)).0
        ≡ (if ltb (10 + fresh.lookup_ttl) 20
            then none
            else some (map (restored user) (accessible ∷ []))))
unfolding format_results
get-set_cached_example =
    get-set_cached laws 10 20 doc owner kind user (user ∷ group ∷ []) accessible [] fresh
      (record { state = _; on = refl; there = refl; small = refl })
      (record { state = _; on = refl; there = refl; small = refl }) ((refl, refl), tt)

-- the targets that own the document, until 50; nothing is cached for the other lookup
abbrev entries : List LookupEntry
entries = record { results = group ∷ []; cached_at = 1; expires_at = 50 } ∷ []

abbrev listed : ProjectCache x
listed = record fresh {
  lookup_cache = some (record { cap = 4; items = (who_key owns, 0) ∷ [] });
  entries = entries;
}

created_visible_example :
    Includes laws
      (record { results = group ∷ []; cached_at = 1; expires_at = 50 })
      user
      (get_results 30
        (who_key owns)
        (update_cache_with_added_relations 20 (relate folder viewer group ∷ owns ∷ []) listed)).0
unfolding lookup who_can_access_key side_key side_value
created_visible_example =
    created_visible laws 20 30 (relate folder viewer group ∷ []) [] owns of_who listed
      (record { state = _; on = refl; there = refl; address = 0; entry = _; hit = refl; at = refl })
      refl refl
