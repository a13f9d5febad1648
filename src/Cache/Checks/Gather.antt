-- ===== src/Cache/Checks/Gather.antt =====
-- What `CheckRelations` answers: the answer to each relation as a function of what is cached, whatever
-- the other relations of the call are.
use mathlib.Core.Path.{ap₂}
use authzcache.Base.{
  ℕ, suc, ◌≡◌, refl, ◌∙◌, ap, Bool, true, false, List, [], ◌∷◌, Option, none, some, inl, inr, arith,
  nat_eq, text_eq, Option-cases,
}
use authzcache.Sdk.{Relation, Check}
use authzcache.Cel.{RequestContext}
use authzcache.Direct.{ConditionalCert, key}
use authzcache.Cache.{Externals, ExternalLaws, ProjectCache}
use authzcache.Cache.Checks.{
  Checked, Found, get_indirect, get_cached_grant, evaluates_to, conditions_eval_to, cert_matches,
  serve_grant, check_relation, collect, check_from, check_relations,
}

-- The three results, from the answers to the relations.
unfoldable pub gather : (Relation → Option Check) → ℕ → List Relation → Checked
unfolding collect
gather answer i [] = record { checks = []; unchecked = []; index_to_check = [] }
gather answer i (r ∷ rs) = collect i r (answer r) (gather answer (suc i) rs)

module _ {x : Externals} (laws : ExternalLaws x) where
  open laws.grants use {peek, get_peek, peek_get}

  -- the cached grant for a key, direct before indirect
  unfoldable pub cached_grant : ProjectCache x → Relation → Option Found
  cached_grant pc r = elim (peek pc.direct.cached (key r)) [
    | some g ↦ some (record { grant = g; direct = true })
    | none ↦ elim (peek pc.indirect (key r)) [
      | none ↦ none
      | some g ↦ some (record { grant = g; direct = false })
    ]
  ]

  -- the answer to one relation, from what is cached
  unfoldable pub answer :
      x.cel.Context → RequestContext x.cel → ProjectCache x → Relation → Option Check
  unfolding cached_grant serve_grant
  answer ctx request pc r = elim (cached_grant pc r) [
    | none ↦ none
    | some f ↦ serve_grant ctx request pc r f
  ]

  -- The same state but for the age of the cached grants.
  pub record Touched (pc pc' : ProjectCache x) : Type 0 where
    pub cached : x.grants.State
    pub indirect : x.grants.State
    pub same :
        pc' ≡ record pc { direct = record pc.direct { cached = cached }; indirect = indirect }
    pub same_direct : (k : List ℕ) → peek cached k ≡ peek pc.direct.cached k
    pub same_indirect : (k : List ℕ) → peek indirect k ≡ peek pc.indirect k

  Touched-trans : {a b c : ProjectCache x} → Touched a b → Touched b c → Touched a c
  Touched-trans {a} {b} {c} p q = record {
    cached = q.cached;
    indirect = q.indirect;
    same =
        q.same
        ∙ ap {A = ProjectCache x} {B = ProjectCache x}
            (λ s. record s {
              direct = record s.direct { cached = q.cached };
              indirect = q.indirect;
            })
            p.same;
    same_direct = λ k.
        q.same_direct k
        ∙ ap {A = ProjectCache x} (λ s. peek s.direct.cached k) p.same
        ∙ p.same_direct k;
    same_indirect = λ k.
        q.same_indirect k
        ∙ ap {A = ProjectCache x} (λ s. peek s.indirect k) p.same
        ∙ p.same_indirect k;
  }

  get_cached_grant-cached :
      (r : Relation) (pc : ProjectCache x) → (get_cached_grant r pc).0 ≡ cached_grant pc r
  unfolding get_cached_grant get_indirect cached_grant
  get_cached_grant-cached r pc =
      ground (arith, get_peek pc.direct.cached (key r), get_peek pc.indirect (key r))

  get_cached_grant-Touched :
      (r : Relation) (pc : ProjectCache x) → Touched pc (get_cached_grant r pc).1
  unfolding get_cached_grant get_indirect
  get_cached_grant-Touched r pc = elim (Option-cases (x.grants.get pc.direct.cached (key r)).0) [
    | inl e ↦
        rw (e, get_cached_grant)
          (record {
            cached = (x.grants.get pc.direct.cached (key r)).1;
            indirect = (x.grants.get pc.indirect (key r)).1;
            same = refl;
            same_direct = peek_get pc.direct.cached (key r);
            same_indirect = peek_get pc.indirect (key r);
          })
    | inr (g, e) ↦
        rw (e, get_cached_grant)
          (record {
            cached = (x.grants.get pc.direct.cached (key r)).1;
            indirect = pc.indirect;
            same = refl;
            same_direct = peek_get pc.direct.cached (key r);
            same_indirect = λ k. refl;
          })
  ]

  cached_grant-Touched :
      (pc pc' : ProjectCache x) (r : Relation)
      → Touched pc pc'
      → cached_grant pc' r ≡ cached_grant pc r
  unfolding cached_grant
  cached_grant-Touched pc pc' r t =
      rw t.same (ground (arith, t.same_direct (key r), t.same_indirect (key r)))

  module _ (ctx : x.cel.Context) (request : RequestContext x.cel) where
    conditions-Touched :
        (want : Bool) (pc : ProjectCache x) (s s' : x.grants.State) (ids : List ℕ)
        → conditions_eval_to ctx want request
            (record pc { direct = record pc.direct { cached = s }; indirect = s' })
            ids
          ≡ conditions_eval_to ctx want request pc ids
    unfolding conditions_eval_to evaluates_to
    conditions-Touched want pc s s' [] = refl
    conditions-Touched want pc s s' (id ∷ ids) = rw (conditions-Touched want pc s s' ids)

    cert_matches-Touched :
        (pc : ProjectCache x) (s s' : x.grants.State) (cert : ConditionalCert)
        → cert_matches ctx request
            (record pc { direct = record pc.direct { cached = s }; indirect = s' })
            cert
          ≡ cert_matches ctx request pc cert
    unfolding cert_matches
    cert_matches-Touched pc s s' cert = rw (
      conditions-Touched true pc s s' cert.true_conds,
      conditions-Touched false pc s s' cert.false_conds,
    )

    serve_grant-Touched :
        (pc : ProjectCache x) (s s' : x.grants.State) (r : Relation) (f : Found)
        → serve_grant ctx request
            (record pc { direct = record pc.direct { cached = s }; indirect = s' })
            r
            f
          ≡ serve_grant ctx request pc r f
    unfolding serve_grant
    serve_grant-Touched pc s s' r f = elim (Option-cases f.grant.cond) [
      | inl e ↦ rw (e, serve_grant)
      | inr (cert, e) ↦ rw (e, serve_grant, cert_matches-Touched pc s s' cert)
    ]

    answer-Touched :
        (pc pc' : ProjectCache x) (r : Relation)
        → Touched pc pc'
        → answer ctx request pc' r ≡ answer ctx request pc r
    unfolding answer
    answer-Touched pc pc' r t = elim (Option-cases (cached_grant pc r)) [
      | inl e ↦ rw (cached_grant-Touched pc pc' r t, e, answer)
      | inr (f, e) ↦
          rw (cached_grant-Touched pc pc' r t, e, answer)
            (rw t.same (serve_grant-Touched pc t.cached t.indirect r f))
    ]

    check_relation-Touched :
        (r : Relation) (pc : ProjectCache x) → Touched pc (check_relation ctx request r pc).1
    unfolding check_relation
    check_relation-Touched r pc = elim (Option-cases (get_cached_grant r pc).0) [
      | inl e ↦ rw (e, check_relation) (get_cached_grant-Touched r pc)
      | inr (f, e) ↦ rw (e, check_relation) (get_cached_grant-Touched r pc)
    ]

    check_relation-answer :
        (r : Relation) (pc : ProjectCache x)
        → (check_relation ctx request r pc).0 ≡ answer ctx request pc r
    unfolding check_relation answer
    check_relation-answer r pc = elim (Option-cases (cached_grant pc r)) [
      | inl e ↦ rw (get_cached_grant-cached r pc, e, check_relation, answer)
      | inr (f, e) ↦
          let t = get_cached_grant-Touched r pc in
          rw (get_cached_grant-cached r pc, e, check_relation, answer)
            (rw t.same (serve_grant-Touched pc t.cached t.indirect r f))
    ]

    -- A batch is answered as its relations would be one by one, from what is cached when the call
    -- starts; the call changes nothing of the state but the age of cached grants.
    check_from-gather :
        (i : ℕ) (rs : List Relation) (pc pc' : ProjectCache x)
        → Touched pc pc'
        → ((check_from ctx request i rs pc').0 ≡ gather (answer ctx request pc) i rs)
          × Touched pc (check_from ctx request i rs pc').1
    unfolding check_from gather
    check_from-gather i [] pc pc' t = (refl, t)
    check_from-gather i (r ∷ rs) pc pc' t =
        let t' = Touched-trans t (check_relation-Touched r pc') in
        let (rest, last) =
          check_from-gather (suc i) rs pc (check_relation ctx request r pc').1 t' in
        (ap₂ (collect i r) (check_relation-answer r pc' ∙ answer-Touched pc pc' r t) rest, last)

    -- `CheckRelations` answers each relation of a batch from what is cached when the call starts, as
    -- if the relation were alone, and the call changes nothing of the state but the age of grants:
    -- the cached grants, as functions of the key, and all other fields stay.
    pub check_relations-gather :
        (rs : List Relation) (pc : ProjectCache x)
        → ((check_relations ctx request rs pc).0 ≡ gather (answer ctx request pc) 0 rs)
          × Touched pc (check_relations ctx request rs pc).1
    unfolding check_relations
    check_relations-gather rs pc = check_from-gather 0 rs pc pc (record {
      cached = pc.direct.cached;
      indirect = pc.indirect;
      same = refl;
      same_direct = λ k. refl;
      same_indirect = λ k. refl;
    })
