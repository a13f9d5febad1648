-- ===== src/Cache/History/Spec.antt =====
-- The specification of the cache of a project, for one relation: which grants may be cached for it
-- after any calls. It has no LRU, index or key.
use authzcache.Base.{ℕ, ◌≡◌, Bool, List, [], ◌∷◌, some, ◌⊎◌, text_eq}
use authzcache.Sdk.{Relation, Check, Modified}
use authzcache.Direct.{CachedGrant}
use authzcache.Cache.{Externals, ProjectCache}
use authzcache.Cache.Updates.Invalidation.{Touches}
use authzcache.Cache.Updates.Admission.{Admitted}
use authzcache.Cache.Polling.{changes}
use authzcache.Cache.Polling.Changes.{Reported}
use authzcache.Cache.History.{
  Call, check, schema_updated, schema_loaded, added, deleted, checked, tick, timer, get_who,
  set_who, get_what, set_what, invalidate, step,
}

-- The grants that may be cached for one relation: direct or not, and the grant.
abbrev pub Permitted : Type 1
Permitted = Bool → CachedGrant → Type 0

module _ {x : Externals} (q : Relation) where
  -- A call after which no earlier check of the relation may be served.
  abbrev pub Cuts : Call x → ProjectCache x → Type 0
  Cuts (schema_updated s) pc = Unit {0}
  Cuts (added now rs) pc = Touches rs q
  Cuts (deleted rs) pc = Touches rs q
  Cuts (tick remote now later) pc =
      (m : Modified) × (remote pc.remote.last_poll_time ≡ changes m) × Reported m q
  Cuts (timer now) pc = (due : ℕ) × (pc.remote.cooldown_timer ≡ some due)
  Cuts (check ctx request rs) pc = ⊥
  Cuts (schema_loaded s) pc = ⊥
  Cuts (checked cs) pc = ⊥
  Cuts (get_who now r d n) pc = ⊥
  Cuts (set_who now r d n ts) pc = ⊥
  Cuts (get_what now t) pc = ⊥
  Cuts (set_what now t rs) pc = ⊥
  Cuts invalidate pc = ⊥

  -- A check of the list is about the relation and gives the grant under the loaded schema.
  abbrev pub Backed : ProjectCache x → Bool → CachedGrant → List Check → Type 0
  Backed pc direct g [] = ⊥
  Backed pc direct g (c ∷ cs) =
      ((c.relation.resource ≡ q.resource)
        × (c.relation.target ≡ q.target)
        × (c.relation.relation ≡ q.relation)
        × (c.info.direct ≡ direct)
        × Admitted c pc g)
      ⊎ Backed pc direct g cs

  abbrev pub Gives : Call x → ProjectCache x → Permitted
  Gives (checked cs) pc direct g = Backed pc direct g cs
  Gives (schema_updated s) pc direct g = ⊥
  Gives (added now rs) pc direct g = ⊥
  Gives (deleted rs) pc direct g = ⊥
  Gives (tick remote now later) pc direct g = ⊥
  Gives (timer now) pc direct g = ⊥
  Gives (check ctx request rs) pc direct g = ⊥
  Gives (schema_loaded s) pc direct g = ⊥
  Gives (get_who now r d n) pc direct g = ⊥
  Gives (set_who now r d n ts) pc direct g = ⊥
  Gives (get_what now t) pc direct g = ⊥
  Gives (set_what now t rs) pc direct g = ⊥
  Gives invalidate pc direct g = ⊥

  -- One step of the specification: what was permitted stays so unless the call cuts it, and the call
  -- permits what it gives.
  abbrev pub spec_step : Call x → ProjectCache x → Permitted → Permitted
  spec_step c pc P direct g = (P direct g × ¬ Cuts c pc) ⊎ Gives c pc direct g

  unfoldable pub spec_run : List (Call x) → ProjectCache x → Permitted → Permitted
  spec_run [] pc P = P
  spec_run (c ∷ cs) pc P = spec_run cs (step x c pc) (spec_step c pc P)
