-- ===== src/Cache/Updates/Keeps.antt =====
-- Invalidating calls cache nothing: what is cached after a sweep, a purge or a write was cached before.
use authzcache.Base.{ℕ, ◌≡◌, sym, ◌∙◌, ap, List, [], ◌∷◌, some, arith, Text}
use authzcache.Sdk.{Relation}
use authzcache.Direct.{CachedGrant, DirectCache, remove_direct_relations_by_resource_and_target}
use authzcache.Direct.Both.{both_keeps}
use authzcache.Cache.{Externals, ExternalLaws, ProjectCache}
use authzcache.Cache.Schemas.Purge.{IsPurged}
use authzcache.Cache.Updates.{
  purge_indirect, update_cache_with_added_relations, update_cache_with_deleted_relations,
}
use authzcache.Cache.Updates.Invalidation.{
  sweep_all, direct-deleted, indirect-deleted, direct-added, indirect-added,
}

module _ {x : Externals} (laws : ExternalLaws x) where
  open laws.grants use {peek}

  -- Every grant of the second cache is one of the first, under the same key.
  abbrev pub StateKeeps : x.grants.State → x.grants.State → Type 0
  StateKeeps s s' = (k : Text) (g : CachedGrant) → peek s' k ≡ some g → peek s k ≡ some g

  -- The same for the direct and the indirect grants of a project's cache.
  pub record Keeps (pc pc' : ProjectCache x) : Type 0 where
    pub direct : StateKeeps pc.direct.cached pc'.direct.cached
    pub indirect : StateKeeps pc.indirect pc'.indirect

  pub Keeps-refl : (pc : ProjectCache x) → Keeps pc pc
  Keeps-refl pc = record { direct = λ k g h. h; indirect = λ k g h. h }

  pub fields-Keeps :
      (pc pc' : ProjectCache x) → pc'.direct ≡ pc.direct → pc'.indirect ≡ pc.indirect → Keeps pc pc'
  fields-Keeps pc pc' d i = record {
    direct = λ k g h. sym (ap (λ t. peek t.cached k) d) ∙ h;
    indirect = λ k g h. sym (ap (λ t. peek t k) i) ∙ h;
  }

  pub purged-Keeps : (pc pc' : ProjectCache x) → IsPurged laws pc' → Keeps pc pc'
  purged-Keeps pc pc' p = record {
    direct = λ k g h. absurd (ground (arith, p.no_direct k));
    indirect = λ k g h. absurd (ground (arith, p.no_indirect k));
  }

  sweep_all_keeps :
      (rs : List Relation) (d : DirectCache x.grants)
      → StateKeeps d.cached (sweep_all laws rs d).cached
  unfolding sweep_all
  sweep_all_keeps [] d k g h = h
  sweep_all_keeps (r ∷ rs) d k g h =
      both_keeps laws.grants r k d
        (sweep_all_keeps rs (remove_direct_relations_by_resource_and_target r d) k g h)

  -- A purged indirect cache keeps nothing.
  pub purge_keeps : (s t : x.grants.State) → t ≡ (x.grants.purge s).0 → StateKeeps s t
  purge_keeps s t e k g h =
      absurd (ground (arith, ap (λ u. peek u k) e, laws.grants.peek_purge s k))

  pub deleted-Keeps :
      (rs : List Relation) (pc : ProjectCache x)
      → Keeps pc (update_cache_with_deleted_relations rs pc)
  unfolding update_cache_with_deleted_relations purge_indirect
  deleted-Keeps [] pc = Keeps-refl pc
  deleted-Keeps (r ∷ rs) pc =
      let start = purge_indirect pc in
      record {
        direct = λ k g h.
            sweep_all_keeps (r ∷ rs) pc.direct k g
              (sym (ap (λ t. peek t.cached k) (direct-deleted laws (r ∷ rs) start)) ∙ h);
        indirect = purge_keeps pc.indirect _ (indirect-deleted laws (r ∷ rs) start);
      }

  pub added-Keeps :
      (now : ℕ) (rs : List Relation) (pc : ProjectCache x)
      → Keeps pc (update_cache_with_added_relations now rs pc)
  unfolding update_cache_with_added_relations purge_indirect
  added-Keeps now [] pc = Keeps-refl pc
  added-Keeps now (r ∷ rs) pc =
      let start = purge_indirect pc in
      record {
        direct = λ k g h.
            sweep_all_keeps (r ∷ rs) pc.direct k g
              (sym (ap (λ t. peek t.cached k) (direct-added laws now (r ∷ rs) start)) ∙ h);
        indirect = purge_keeps pc.indirect _ (indirect-added laws now (r ∷ rs) start);
      }
