-- ===== src/Direct.antt =====
-- The cache of direct grants in internal/services/caches/projectauthzcache.go: the fields
-- `directRelationCache`, `directResourcesIndex`, `directTargetsIndex` and `directKeyComponents` of
-- `projectAuthzCache`, and the functions that keep them. The two indexes are one structure with the
-- two names swapped; a Go map is walked in the order of its entries.
pub mod Key
pub mod Index
pub mod Eviction
pub mod Sweep
pub mod Both
pub mod Sound
pub mod Precise
use authzcache.Base.{
  ℕ, Bool, true, false, List, [], ◌∷◌, ◌++◌, Option, none, some, Text, text_eq, ◌==◌, or_else,
  is_empty, contains, erase, if◌then◌else◌,
}
use authzcache.Base.Map.{Map, lookup, insert, delete}
use authzcache.Sdk.{Relation}
use authzcache.Lru.{Lru}

-- Condition ids that were true and false on the deciding path.
pub record ConditionalCert : Type 0 where
  pub true_conds : List ℕ
  pub false_conds : List ℕ

pub record CachedGrant : Type 0 where
  pub allowed : Bool
  pub cond : Option ConditionalCert

abbrev pub colon : ℕ
colon = b':'

unfoldable pub key : Relation → Text
key r = r.resource ++ (colon ∷ (r.target ++ (colon ∷ r.relation)))

-- outer name ↦ inner name ↦ keys
abbrev pub Index : Type 0
Index = Map Text (Map Text (List Text))

pub add_key : Text → Text → Text → Index → Index
add_key outer inner k index = elim (lookup outer index) [
  | none ↦ insert outer ((inner, k ∷ []) ∷ []) index
  | some names ↦ insert outer (insert inner (or_else (lookup inner names) [] ++ k ∷ []) names) index
]

-- `delete(names, inner)` if no key is left
prune_inner : Text → List Text → Map Text (List Text) → Map Text (List Text)
prune_inner inner keys names = if is_empty keys then delete inner names else names

-- `delete(index, outer)` if no name is left
prune_outer : Text → Map Text (List Text) → Index → Index
prune_outer outer names index =
    if is_empty names then delete outer index else insert outer names index

-- the loop that takes the first occurrence out
drop_key : Text → Text → List Text → Map Text (List Text) → Map Text (List Text)
unfolding prune_inner
drop_key inner k keys names =
    if contains k keys
    then prune_inner inner (erase k keys) (insert inner (erase k keys) names)
    else prune_inner inner keys names

pub remove_key : Text → Text → Text → Index → Index
unfolding drop_key prune_outer
remove_key outer inner k index = elim (lookup outer index) [
  | none ↦ index
  | some names ↦ prune_outer outer (drop_key inner k (or_else (lookup inner names) []) names) index
]

module _ (lru : Lru CachedGrant) where
  pub record DirectCache : Type 0 where
    pub cached : lru.State
    pub resources : Index
    pub targets : Index
    pub components : Map Text (Text × Text)

  pub remove_keys : List Text → lru.State → lru.State
  remove_keys [] s = s
  remove_keys (k ∷ ks) s = remove_keys ks (lru.remove s k)

  pub remove_names : Map Text (List Text) → lru.State → lru.State
  unfolding remove_keys
  remove_names [] s = s
  remove_names ((_, keys) ∷ names) s = remove_names names (remove_keys keys s)

module _ {lru : Lru CachedGrant} where
  pub add_key_to_resource_index : Text → Text → Text → DirectCache lru → DirectCache lru
  add_key_to_resource_index k r t d = record d { resources = add_key r t k d.resources }

  pub add_key_to_target_index : Text → Text → Text → DirectCache lru → DirectCache lru
  add_key_to_target_index k r t d = record d { targets = add_key t r k d.targets }

  pub remove_key_from_resource_index : Text → Text → Text → DirectCache lru → DirectCache lru
  remove_key_from_resource_index r t k d = record d { resources = remove_key r t k d.resources }

  pub remove_key_from_target_index : Text → Text → Text → DirectCache lru → DirectCache lru
  remove_key_from_target_index r t k d = record d { targets = remove_key t r k d.targets }

  pub remove_index_on_cache_eviction : Text → DirectCache lru → DirectCache lru
  unfolding remove_key_from_resource_index remove_key_from_target_index
  remove_index_on_cache_eviction k d = elim (lookup k d.components) [
    | none ↦ d
    | some (r, t) ↦
        let d' = remove_key_from_target_index r t k (remove_key_from_resource_index r t k d) in
        record d' { components = delete k d'.components }
  ]

  -- the callback's calls, one for each key that is pushed out
  pub evict_all : List Text → DirectCache lru → DirectCache lru
  evict_all [] d = d
  evict_all (k ∷ ks) d = evict_all ks (remove_index_on_cache_eviction k d)

  pub add_direct_relation : Relation → CachedGrant → DirectCache lru → DirectCache lru
  unfolding add_key_to_resource_index add_key_to_target_index
  add_direct_relation r grant d =
      let k = key r in
      let added = lru.add d.cached k grant in
      let d₁ = evict_all added.1 (record d { cached = added.0 }) in
      let d₂ = record d₁ { components = insert k (r.resource, r.target) d₁.components } in
      add_key_to_target_index k r.resource r.target
        (add_key_to_resource_index k r.resource r.target d₂)

  pub remove_direct_relations_by_resource : Text → DirectCache lru → DirectCache lru
  unfolding remove_names
  remove_direct_relations_by_resource r d = record d {
    cached = remove_names lru (or_else (lookup r d.resources) []) d.cached;
    resources = delete r d.resources;
  }

  pub remove_direct_relations_by_target : Text → DirectCache lru → DirectCache lru
  unfolding remove_names
  remove_direct_relations_by_target t d = record d {
    cached = remove_names lru (or_else (lookup t d.targets) []) d.cached;
    targets = delete t d.targets;
  }

  pub remove_direct_relations_by_resource_and_target : Relation → DirectCache lru → DirectCache lru
  remove_direct_relations_by_resource_and_target r d =
      remove_direct_relations_by_target r.target (remove_direct_relations_by_resource r.resource d)

  -- the part of `purgeRelationCaches` that is about direct grants
  pub purge_direct : DirectCache lru → DirectCache lru
  purge_direct d =
      let emptied = lru.purge d.cached in
      evict_all emptied.1
        (record { cached = emptied.0; resources = []; targets = []; components = [] })
