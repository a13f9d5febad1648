-- ===== src/Cache/Checks/Sound.antt =====
-- What a served check rests on: a cached grant, and for a conditional one a certificate that holds for
-- the request.
use authzcache.Base.{
  sym, subst, ℕ, ◌≡◌, refl, Bool, true, false, ◌&&◌, List, [], ◌∷◌, Option, none, some, inl, inr,
  arith, nat_eq, text_eq, is_empty, All, Option-cases,
}
use authzcache.Base.Map.{lookup}
use authzcache.Sdk.{Relation, Check}
use authzcache.Cel.{CompiledCondition, RequestContext, eval}
use authzcache.Direct.{ConditionalCert}
use authzcache.Cache.{Externals, ExternalLaws, ProjectCache}
use authzcache.Cache.Checks.{Found, evaluates_to, conditions_eval_to, cert_matches, serve_grant}
use authzcache.Cache.Checks.Gather.{cached_grant, answer}

module _ {x : Externals} (laws : ExternalLaws x) where
  module _ (ctx : x.cel.Context) (request : RequestContext x.cel) where
    -- Each condition is compiled and evaluates to the wanted value for the request.
    abbrev pub Holds : ProjectCache x → Bool → List ℕ → Type 0
    Holds pc want = All (λ id.
        (cc : CompiledCondition x.cel) × (lookup id pc.compiled ≡ some cc)
        × (eval x.cel cc ctx request pc.cel_timeout ≡ some want))

    evaluates_to-Holds :
        (want : Bool) (pc : ProjectCache x) (id : ℕ)
        → evaluates_to ctx want request pc id ≡ true
        → (cc : CompiledCondition x.cel) × (lookup id pc.compiled ≡ some cc)
          × (eval x.cel cc ctx request pc.cel_timeout ≡ some want)
    unfolding evaluates_to
    evaluates_to-Holds want pc id h = elim (Option-cases (lookup id pc.compiled)) [
      | inl e ↦ absurd (ground arith)
      | inr (cc, e) ↦ (cc, e, ground arith)
    ]

    pub conditions-Holds :
        (want : Bool) (pc : ProjectCache x) (ids : List ℕ)
        → conditions_eval_to ctx want request pc ids ≡ true
        → Holds pc want ids
    unfolding conditions_eval_to
    conditions-Holds want pc [] h = tt
    conditions-Holds want pc (id ∷ ids) h =
        (evaluates_to-Holds want pc id (ground arith), conditions-Holds want pc ids (ground arith))

    evaluates_to_of_Holds :
        (want : Bool) (pc : ProjectCache x) (id : ℕ) (cc : CompiledCondition x.cel)
        → lookup id pc.compiled ≡ some cc
        → eval x.cel cc ctx request pc.cel_timeout ≡ some want
        → evaluates_to ctx want request pc id ≡ true
    unfolding evaluates_to
    evaluates_to_of_Holds want pc id cc e h = ground arith

    pub conditions_of_Holds :
        (want : Bool) (pc : ProjectCache x) (ids : List ℕ)
        → Holds pc want ids
        → conditions_eval_to ctx want request pc ids ≡ true
    unfolding conditions_eval_to
    conditions_of_Holds want pc [] h = refl
    conditions_of_Holds want pc (id ∷ ids) ((cc, e, v), rest) =
        rw (evaluates_to_of_Holds want pc id cc e v, conditions_of_Holds want pc ids rest)

    -- A certificate names a condition, and all its conditions hold for the request.
    abbrev pub Certified : ProjectCache x → Option ConditionalCert → Type 0
    Certified pc none = Unit {0}
    Certified pc (some cert) =
        (is_empty cert.true_conds && is_empty cert.false_conds ≡ false)
        × Holds pc true cert.true_conds
        × Holds pc false cert.false_conds

    -- What a served check rests on.
    pub record Served (pc : ProjectCache x) (r : Relation) (c : Check) : Type 0 where
      pub found : Found
      pub cached : cached_grant laws pc r ≡ some found
      pub relation : c.relation ≡ r
      pub allowed : c.allowed ≡ found.grant.allowed
      pub certified : Certified pc found.grant.cond

    cert_matches-Holds :
        (pc : ProjectCache x) (cert : ConditionalCert)
        → cert_matches ctx request pc cert ≡ true
        → Certified pc (some cert)
    unfolding cert_matches
    cert_matches-Holds pc cert h = (
      ground arith,
      conditions-Holds true pc cert.true_conds (ground arith),
      conditions-Holds false pc cert.false_conds (ground arith),
    )

    serve_grant-Served :
        (pc : ProjectCache x) (r : Relation) (f : Found) (c : Check)
        → cached_grant laws pc r ≡ some f
        → serve_grant ctx request pc r f ≡ some c
        → Served pc r c
    unfolding serve_grant
    serve_grant-Served pc r f c cached e = record {
      found = f;
      cached = cached;
      relation = ground arith;
      allowed = ground arith;
      certified = elim (Option-cases f.grant.cond) [
        | inl plain ↦ subst (Certified pc) (sym plain) tt
        | inr (cert, eq) ↦ subst (Certified pc) (sym eq) (cert_matches-Holds pc cert (ground arith))
      ];
    }

    -- Only a cached grant is served, with its own verdict; a conditional one only if its certificate
    -- names a condition and every condition of it is compiled and evaluates for this request to the
    -- value that the certificate records.
    pub answer-Served :
        (pc : ProjectCache x) (r : Relation) (c : Check)
        → answer laws ctx request pc r ≡ some c
        → Served pc r c
    unfolding answer
    answer-Served pc r c e = elim (Option-cases (cached_grant laws pc r)) [
      | inl miss ↦ absurd (ground arith)
      | inr (f, hit) ↦ serve_grant-Served pc r f c hit (ground arith)
    ]
