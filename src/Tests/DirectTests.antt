-- ===== src/Tests/DirectTests.antt =====
-- The index of the direct grants at concrete inputs.
use authzcache.Base.{◌≡◌, ◌≢◌, refl, [], ◌∷◌, ◌++◌, arith, text_eq}
use authzcache.Base.Map.{lookup}
use authzcache.Sdk.{Relation}
use authzcache.Lru.{Lru, LruLaws}
use authzcache.Direct.{CachedGrant, DirectCache, key, colon, add_direct_relation}
use authzcache.Direct.Key.{IsPlain, key-injective, key_collision}
use authzcache.Direct.Eviction.{IsIndexed, add_direct_relation-IsIndexed}
use authzcache.Direct.Both.{empty_direct}
use authzcache.Tests.ListLru.{list_lru, list_lru_laws}
use authzcache.Tests.Concrete.{doc, folder, user, group, owner, viewer, kind, relate, allow, owns}

abbrev lru : Lru CachedGrant
lru = list_lru CachedGrant

abbrev grants : LruLaws lru
grants = list_lru_laws CachedGrant

abbrev empty : DirectCache lru
empty = empty_direct lru (record { cap = 1; items = [] })

owns-IsPlain : IsPlain owns
owns-IsPlain = record { resource = refl; target = refl; relation = refl }

key-injective_example : (doc ≡ doc) × (user ≡ user) × (owner ≡ owner)
key-injective_example = key-injective owns owns owns-IsPlain refl

key_collision_example :
    let r : Relation = record {
      resource = doc ++ (colon ∷ folder);
      resource_type = kind;
      relation = owner;
      target = user;
      target_type = kind;
    } in
    let s : Relation = record {
      resource = doc;
      resource_type = kind;
      relation = owner;
      target = folder ++ (colon ∷ user);
      target_type = kind;
    } in
    (key r ≡ key s) × (r.resource ≢ s.resource) × (r.target ≢ s.target)
key_collision_example = key_collision doc folder user kind kind owner

empty-IsIndexed : IsIndexed grants empty
unfolding lookup
empty-IsIndexed k g e = absurd (ground arith)

-- The second grant pushes the first one out.
abbrev one : DirectCache lru
one = add_direct_relation (relate folder viewer group) allow empty

one-IsIndexed : IsIndexed grants one
one-IsIndexed =
    add_direct_relation-IsIndexed grants (relate folder viewer group) allow empty empty-IsIndexed

add_direct_relation-IsIndexed_example : IsIndexed grants (add_direct_relation owns allow one)
add_direct_relation-IsIndexed_example =
    add_direct_relation-IsIndexed grants owns allow one one-IsIndexed
