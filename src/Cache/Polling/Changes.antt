-- ===== src/Cache/Polling/Changes.antt =====
-- A poll that succeeds: no grant on a resource or target that the backend reports as changed stays
-- cached.
use authzcache.Base.{
  ◌≡◌, refl, sym, ◌∙◌, ap, subst, true, List, [], ◌∷◌, none, ◌⊎◌, inl, inr, arith, Text, text_eq,
  eq_iff, ◌==◌, contains, Bool-cases, Option-cases,
}
use authzcache.Sdk.{Relation, Modified}
use authzcache.Direct.{
  DirectCache, key, remove_direct_relations_by_resource, remove_direct_relations_by_target,
}
use authzcache.Direct.Eviction.{IsIndexed}
use authzcache.Direct.Sweep.{
  IsUnambiguous, by_resource-IsIndexed, by_target-IsIndexed, by_resource_complete,
  by_target_complete,
}
use authzcache.Direct.Both.{by_resource_keeps, by_target_keeps}
use authzcache.Cache.{Externals, ExternalLaws, ProjectCache}
use authzcache.Cache.Updates.{purge_indirect}
use authzcache.Cache.Updates.Invalidation.{Forgotten, Indexed}
use authzcache.Cache.Polling.{sweep_resources, sweep_targets, apply_changes}

-- The backend reports the resource or the target of the relation, or a new schema.
abbrev pub Reported : Modified → Relation → Type 0
Reported m q =
    (m.schema_changed ≡ true)
    ⊎ ((contains q.resource m.resources ≡ true) ⊎ (contains q.target m.targets ≡ true))

module _ {x : Externals} (laws : ExternalLaws x) where
  open laws.grants use {peek}

  -- the sweeps of the two lists, on the direct cache alone
  unfoldable pub resources_all : List Text → DirectCache x.grants → DirectCache x.grants
  resources_all [] d = d
  resources_all (r ∷ rs) d = resources_all rs (remove_direct_relations_by_resource r d)

  unfoldable pub targets_all : List Text → DirectCache x.grants → DirectCache x.grants
  targets_all [] d = d
  targets_all (t ∷ ts) d = targets_all ts (remove_direct_relations_by_target t d)

  direct-resources :
      (rs : List Text) (pc : ProjectCache x)
      → sweep_resources rs pc ≡ record pc { direct = resources_all rs pc.direct }
  unfolding sweep_resources resources_all
  direct-resources [] pc = refl
  direct-resources (r ∷ rs) pc =
      direct-resources rs (record pc { direct = remove_direct_relations_by_resource r pc.direct })

  direct-targets :
      (ts : List Text) (pc : ProjectCache x)
      → sweep_targets ts pc ≡ record pc { direct = targets_all ts pc.direct }
  unfolding sweep_targets targets_all
  direct-targets [] pc = refl
  direct-targets (t ∷ ts) pc =
      direct-targets ts (record pc { direct = remove_direct_relations_by_target t pc.direct })

  -- What polling applies, in one equation.
  pub apply_changes-fields :
      (m : Modified) (pc : ProjectCache x)
      → apply_changes m pc ≡ record pc {
        direct = targets_all m.targets (resources_all m.resources pc.direct);
        indirect = (x.grants.purge pc.indirect).0;
      }
  unfolding apply_changes purge_indirect
  apply_changes-fields m pc =
      ap (sweep_targets m.targets) (direct-resources m.resources (purge_indirect pc))
      ∙ direct-targets m.targets
          (record (purge_indirect pc) { direct = resources_all m.resources pc.direct })

  resource_none :
      (r k : Text) (d : DirectCache x.grants)
      → peek d.cached k ≡ none
      → peek (remove_direct_relations_by_resource r d).cached k ≡ none
  resource_none r k d e =
      elim (Option-cases (peek (remove_direct_relations_by_resource r d).cached k)) [
        | inl gone ↦ gone
        | inr (g, left) ↦ absurd (ground (arith, by_resource_keeps laws.grants r k d left))
      ]

  target_none :
      (t k : Text) (d : DirectCache x.grants)
      → peek d.cached k ≡ none
      → peek (remove_direct_relations_by_target t d).cached k ≡ none
  target_none t k d e =
      elim (Option-cases (peek (remove_direct_relations_by_target t d).cached k)) [
        | inl gone ↦ gone
        | inr (g, left) ↦ absurd (ground (arith, by_target_keeps laws.grants t k d left))
      ]

  resources_all-none :
      (rs : List Text) (k : Text) (d : DirectCache x.grants)
      → peek d.cached k ≡ none
      → peek (resources_all rs d).cached k ≡ none
  unfolding resources_all
  resources_all-none [] k d e = e
  resources_all-none (r ∷ rs) k d e =
      resources_all-none rs k (remove_direct_relations_by_resource r d) (resource_none r k d e)

  targets_all-none :
      (ts : List Text) (k : Text) (d : DirectCache x.grants)
      → peek d.cached k ≡ none
      → peek (targets_all ts d).cached k ≡ none
  unfolding targets_all
  targets_all-none [] k d e = e
  targets_all-none (t ∷ ts) k d e =
      targets_all-none ts k (remove_direct_relations_by_target t d) (target_none t k d e)

  resources_all-IsIndexed :
      (rs : List Text) (d : DirectCache x.grants)
      → IsIndexed laws.grants d
      → IsIndexed laws.grants (resources_all rs d)
  unfolding resources_all
  resources_all-IsIndexed [] d h = h
  resources_all-IsIndexed (r ∷ rs) d h =
      resources_all-IsIndexed rs (remove_direct_relations_by_resource r d)
        (by_resource-IsIndexed laws.grants d h r)

  targets_all-IsIndexed :
      (ts : List Text) (d : DirectCache x.grants)
      → IsIndexed laws.grants d
      → IsIndexed laws.grants (targets_all ts d)
  unfolding targets_all
  targets_all-IsIndexed [] d h = h
  targets_all-IsIndexed (t ∷ ts) d h =
      targets_all-IsIndexed ts (remove_direct_relations_by_target t d)
        (by_target-IsIndexed laws.grants d h t)

  module _ (q : Relation) (u : IsUnambiguous q) where
    resources_all_complete :
        (rs : List Text) (d : DirectCache x.grants)
        → IsIndexed laws.grants d
        → contains q.resource rs ≡ true
        → peek (resources_all rs d).cached (key q) ≡ none
    unfolding resources_all
    resources_all_complete [] d h c = absurd (ground arith)
    resources_all_complete (r ∷ rs) d h c = elim (Bool-cases (r == q.resource)) [
      | inl e ↦ resources_all-none rs (key q) (remove_direct_relations_by_resource r d) (
          subst (λ o. peek (remove_direct_relations_by_resource o d).cached (key q) ≡ none)
            (sym ((eq_iff r q.resource).0 e)) (by_resource_complete laws.grants d h q u))
      | inr e ↦
          resources_all_complete rs (remove_direct_relations_by_resource r d)
            (by_resource-IsIndexed laws.grants d h r) (ground arith)
    ]

    targets_all_complete :
        (ts : List Text) (d : DirectCache x.grants)
        → IsIndexed laws.grants d
        → contains q.target ts ≡ true
        → peek (targets_all ts d).cached (key q) ≡ none
    unfolding targets_all
    targets_all_complete [] d h c = absurd (ground arith)
    targets_all_complete (t ∷ ts) d h c = elim (Bool-cases (t == q.target)) [
      | inl e ↦ targets_all-none ts (key q) (remove_direct_relations_by_target t d) (
          subst (λ o. peek (remove_direct_relations_by_target o d).cached (key q) ≡ none)
            (sym ((eq_iff t q.target).0 e)) (by_target_complete laws.grants d h q u))
      | inr e ↦
          targets_all_complete ts (remove_direct_relations_by_target t d)
            (by_target-IsIndexed laws.grants d h t) (ground arith)
    ]

    pub apply_changes-Forgotten :
        (m : Modified) (pc : ProjectCache x)
        → Indexed laws pc
        → (contains q.resource m.resources ≡ true) ⊎ (contains q.target m.targets ≡ true)
        → Forgotten laws q (apply_changes m pc)
    apply_changes-Forgotten m pc h (inl c) = rw (apply_changes-fields m pc) (
      targets_all-none m.targets (key q) (resources_all m.resources pc.direct)
          (resources_all_complete m.resources pc.direct h c),
      laws.grants.peek_purge pc.indirect (key q),
    )
    apply_changes-Forgotten m pc h (inr c) = rw (apply_changes-fields m pc) (
      targets_all_complete m.targets (resources_all m.resources pc.direct)
          (resources_all-IsIndexed m.resources pc.direct h) c,
      laws.grants.peek_purge pc.indirect (key q),
    )

  pub apply_changes-Indexed :
      (m : Modified) (pc : ProjectCache x) → Indexed laws pc → Indexed laws (apply_changes m pc)
  apply_changes-Indexed m pc h = rw (apply_changes-fields m pc) (
      targets_all-IsIndexed m.targets (resources_all m.resources pc.direct)
        (resources_all-IsIndexed m.resources pc.direct h))
