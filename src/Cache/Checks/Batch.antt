-- ===== src/Cache/Checks/Batch.antt =====
-- What `CheckRelations` returns for a batch, described by the answers alone.
use authzcache.Base.{ℕ, suc, ◌≡◌, refl, ◌∙◌, ap, List, [], ◌∷◌, Option, none, some}
use authzcache.Base.Map.{Map}
use authzcache.Sdk.{Relation, Check}
use authzcache.Cel.{RequestContext}
use authzcache.Cache.{Externals, ExternalLaws, ProjectCache}
use authzcache.Cache.Checks.{Checked, collect, check_relations}
use authzcache.Cache.Checks.Gather.{gather, answer, Touched, check_relations-gather}

-- The relations without an answer, in their order.
unfoldable pub missing : (Relation → Option Check) → List Relation → List Relation
missing answer [] = []
missing answer (r ∷ rs) = elim (answer r) [
  | none ↦ r ∷ missing answer rs
  | some c ↦ missing answer rs
]

-- The answers that there are, in the order of the relations.
unfoldable pub hits : (Relation → Option Check) → List Relation → List Check
hits answer [] = []
hits answer (r ∷ rs) = elim (answer r) [ none ↦ hits answer rs | some c ↦ c ∷ hits answer rs ]

-- The answers with the index of their relation, counted from `i`.
unfoldable pub numbered : (Relation → Option Check) → ℕ → List Relation → Map ℕ Check
numbered answer i [] = []
numbered answer i (r ∷ rs) = elim (answer r) [
  | none ↦ numbered answer (suc i) rs
  | some c ↦ (i, c) ∷ numbered answer (suc i) rs
]

abbrev pub batch : (Relation → Option Check) → ℕ → List Relation → Checked
batch answer i rs = record {
  checks = hits answer rs;
  unchecked = missing answer rs;
  index_to_check = numbered answer i rs;
}

collect-batch :
    (i : ℕ) (r : Relation) (o : Option Check) (rest : Checked)
    → collect i r o rest ≡ record {
      checks = elim o [ none ↦ rest.checks | some c ↦ c ∷ rest.checks ];
      unchecked = elim o [ none ↦ r ∷ rest.unchecked | some c ↦ rest.unchecked ];
      index_to_check = elim o [
        | none ↦ rest.index_to_check
        | some c ↦ (i, c) ∷ rest.index_to_check
      ];
    }
unfolding collect
collect-batch i r none rest = refl
collect-batch i r (some c) rest = refl

pub gather-batch :
    (ask : Relation → Option Check) (i : ℕ) (rs : List Relation) → gather ask i rs ≡ batch ask i rs
unfolding gather missing hits numbered
gather-batch ask i [] = refl
gather-batch ask i (r ∷ rs) =
    ap (collect i r (ask r)) (gather-batch ask (suc i) rs)
    ∙ collect-batch i r (ask r) (batch ask (suc i) rs)

module _ {x : Externals} (laws : ExternalLaws x) (ctx : x.cel.Context)
    (request : RequestContext x.cel) where
  -- `CheckRelations` answers each relation of a batch from what is cached when the call starts, as if
  -- the relation were alone: its three results are the answers that there are, the relations that
  -- have none, each in the order of the request, and the answers with the index of their relation.
  -- The call changes nothing of the state but the age of grants: the cached grants, as functions of
  -- the key, and all other fields stay.
  pub answered_alone :
      (rs : List Relation) (pc : ProjectCache x)
      → ((check_relations ctx request rs pc).0 ≡ record {
        checks = hits (answer laws ctx request pc) rs;
        unchecked = missing (answer laws ctx request pc) rs;
        index_to_check = numbered (answer laws ctx request pc) 0 rs;
      })
        × Touched laws pc (check_relations ctx request rs pc).1
  answered_alone rs pc =
      let (same, touched) = check_relations-gather laws ctx request rs pc in
      (same ∙ gather-batch (answer laws ctx request pc) 0 rs, touched)
