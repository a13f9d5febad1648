-- ===== src/Cache/Checks.antt =====
-- `CheckRelations` and what it calls: which relations are answered from the cache, and how a
-- conditional grant is evaluated again.
pub mod Gather
pub mod Batch
pub mod Sound
use authzcache.Base.{
  ℕ, zero, suc, Bool, true, false, ◌&&◌, List, [], ◌∷◌, Option, none, some, nat_eq, text_beq, eqb,
  is_empty, or_else, if◌then◌else◌,
}
use authzcache.Base.Map.{Map, lookup, insert}
use authzcache.Sdk.{Relation, Check, CheckInfo, no_info}
use authzcache.Lru.{Lru}
use authzcache.Cel.{CelEngine, CompiledCondition, RequestContext, eval}
use authzcache.Direct.{CachedGrant, ConditionalCert, DirectCache, key}
use authzcache.Cache.{Externals, ProjectCache}

-- What the loop of `CheckRelations` has collected: `checks`, `unchecked` and `indexToCheck`.
pub record Checked : Type 0 where
  pub checks : List Check
  pub unchecked : List Relation
  pub index_to_check : Map ℕ Check

pub record Found : Type 0 where
  pub grant : CachedGrant
  pub direct : Bool

-- the appends to the three results, for the relation at index `i`
unfoldable pub collect : ℕ → Relation → Option Check → Checked → Checked
collect i r none rest = record rest { unchecked = r ∷ rest.unchecked }
collect i r (some c) rest = record rest {
  checks = c ∷ rest.checks;
  index_to_check = (i, c) ∷ rest.index_to_check;
}

module _ {x : Externals} where
  -- the lookup in the indirect cache, after a miss in the direct one
  get_indirect : Relation → ProjectCache x → Option Found × ProjectCache x
  get_indirect r pc =
      let got = x.grants.get pc.indirect (key r) in
      (
        elim got.0 [ none ↦ none | some g ↦ some (record { grant = g; direct = false }) ],
        record pc { indirect = got.1 },
      )

  pub get_cached_grant : Relation → ProjectCache x → Option Found × ProjectCache x
  unfolding get_indirect
  get_cached_grant r pc =
      let got = x.grants.get pc.direct.cached (key r) in
      let pc' = record pc { direct = record pc.direct { cached = got.1 } } in
      elim got.0 [
        | none ↦ get_indirect r pc'
        | some g ↦ (some (record { grant = g; direct = true }), pc')
      ]

  -- one turn of the loop of `conditionsEvalTo`
  unfoldable pub evaluates_to :
      x.cel.Context → Bool → RequestContext x.cel → ProjectCache x → ℕ → Bool
  evaluates_to ctx want request pc id = elim (lookup id pc.compiled) [
    | none ↦ false
    | some compiled ↦ elim (eval x.cel compiled ctx request pc.cel_timeout) [
      | none ↦ false
      | some got ↦ if want then got else (if got then false else true)
    ]
  ]

  unfoldable pub conditions_eval_to :
      x.cel.Context → Bool → RequestContext x.cel → ProjectCache x → List ℕ → Bool
  unfolding evaluates_to
  conditions_eval_to ctx want request pc [] = true
  conditions_eval_to ctx want request pc (id ∷ ids) =
      evaluates_to ctx want request pc id && conditions_eval_to ctx want request pc ids

  unfoldable pub cert_matches :
      x.cel.Context → RequestContext x.cel → ProjectCache x → ConditionalCert → Bool
  cert_matches ctx request pc cert =
      if is_empty cert.true_conds && is_empty cert.false_conds
      then false
      else conditions_eval_to ctx true request pc cert.true_conds
        && conditions_eval_to ctx false request pc cert.false_conds

  -- the check that a cached grant gives, if it can be served
  unfoldable pub serve_grant :
      x.cel.Context → RequestContext x.cel → ProjectCache x → Relation → Found → Option Check
  serve_grant ctx request pc r found = elim found.grant.cond [
    | none ↦ some (record {
      allowed = found.grant.allowed;
      relation = r;
      info = record no_info { direct = found.direct };
    })
    | some cert ↦
        if cert_matches ctx request pc cert
        then some (record {
          allowed = found.grant.allowed;
          relation = r;
          info = record no_info { conditional = true };
        })
        else none
  ]

  -- one turn of the loop of `CheckRelations`: the check, or nothing, for one relation
  pub check_relation :
      x.cel.Context
      → RequestContext x.cel
      → Relation
      → ProjectCache x
      → Option Check × ProjectCache x
  unfolding serve_grant
  check_relation ctx request r pc =
      let (found, pc') = get_cached_grant r pc in
      elim found [ none ↦ (none, pc') | some f ↦ (serve_grant ctx request pc' r f, pc') ]

  pub check_from :
      x.cel.Context
      → RequestContext x.cel
      → ℕ
      → List Relation
      → ProjectCache x
      → Checked × ProjectCache x
  unfolding check_relation collect
  check_from ctx request i [] pc = (record { checks = []; unchecked = []; index_to_check = [] }, pc)
  check_from ctx request i (r ∷ rs) pc =
      let (answer, pc') = check_relation ctx request r pc in
      let (rest, pc'') = check_from ctx request (suc i) rs pc' in (collect i r answer rest, pc'')

  pub check_relations :
      x.cel.Context
      → RequestContext x.cel
      → List Relation
      → ProjectCache x
      → Checked × ProjectCache x
  check_relations ctx request relations pc = check_from ctx request 0 relations pc
