-- ===== src/Cache/Lookup/RoundTrip.antt =====
-- The texts of the lookup cache: keys that never meet, and results that are read back as written.
use authzcache.Base.{
  ℕ, ◌≡◌, ◌≢◌, refl, ap, false, List, [], ◌∷◌, ◌++◌, map, some, arith, Text, text_eq, nat_eq,
  contains, All,
}
use authzcache.Sdk.{AuthzRelation}
use authzcache.Cache.Lookup.{
  bar, who_can_access_key, what_can_target_access_key, join_result, cut, split_result,
  parsed_relation, parse_results, format_results,
}

-- The entries of `WhoCanAccess` and of `WhatCanTargetAccess` never share a key, whatever the names.
keys_disjoint :
    (resource relation_definition namespace target : Text)
    → who_can_access_key resource relation_definition namespace ≢ what_can_target_access_key target
unfolding who_can_access_key what_can_target_access_key
keys_disjoint resource relation_definition namespace target e = ground arith

cut-join : (sep : ℕ) (a b : Text) → contains sep a ≡ false → cut sep (a ++ sep ∷ b) ≡ some (a, b)
unfolding cut
cut-join sep [] b h = ground arith
cut-join sep (c ∷ a) b h = ground (arith, cut-join sep a b)

-- A result is split into the parts that it was joined from, if the resource and the relation have no
-- bar; the namespace may have any.
pub split-join :
    (resource relation_definition namespace : Text)
    → contains bar resource ≡ false
    → contains bar relation_definition ≡ false
    → split_result (join_result resource relation_definition namespace)
      ≡ some (resource, relation_definition, namespace)
unfolding split_result join_result
split-join resource relation_definition namespace h k = rw (
  cut-join bar resource (relation_definition ++ bar ∷ namespace) h,
  cut-join bar relation_definition namespace k,
)

-- The resource and the relation have no bar.
abbrev pub IsPlain : AuthzRelation → Type 0
IsPlain r = (contains bar r.resource ≡ false) × (contains bar r.relation_definition ≡ false)

-- What the cache returns for a relation that was stored: the target is the one asked for, and the
-- target-set fields are lost.
abbrev pub restored : Text → AuthzRelation → AuthzRelation
restored target r = parsed_relation target (r.resource, r.relation_definition, r.namespace)

pub parse-format :
    (target : Text) (rs : List AuthzRelation)
    → All IsPlain rs
    → parse_results target (format_results rs) ≡ map (restored target) rs
unfolding parse_results format_results
parse-format target [] h = refl
parse-format target (r ∷ rs) ((p, q), h) =
    rw (split-join r.resource r.relation_definition r.namespace p q, parse_results)
      (ap (◌∷◌ (restored target r)) (parse-format target rs h))
