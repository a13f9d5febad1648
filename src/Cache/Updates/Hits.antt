-- ===== src/Cache/Updates/Hits.antt =====
-- That the cache serves what was given to it: a check that may be cached is answered from the cache
-- right afterwards.
use authzcache.Base.{
  ◌≡◌, sym, subst, ◌⊎◌, inl, inr, Bool, true, false, Option, none, some, arith, text_eq, eq_refl,
  is_some, Option-cases, if◌then◌else◌,
}
use authzcache.Sdk.{Relation, Check, no_info}
use authzcache.Cel.{RequestContext}
use authzcache.Direct.{CachedGrant, ConditionalCert, key, add_direct_relation}
use authzcache.Direct.Eviction.{peek-add_direct_relation}
use authzcache.Cache.{Externals, ExternalLaws, ProjectCache}
use authzcache.Cache.Checks.{Found, serve_grant, cert_matches}
use authzcache.Cache.Checks.Gather.{cached_grant, answer}
use authzcache.Cache.Checks.Sound.{Certified, conditions_of_Holds}
use authzcache.Cache.Updates.{grant_of, store_grant, store_check, add_indirect_relation}

-- The check that is served for a cached grant.
unfoldable pub served : Relation → Bool → CachedGrant → Check
served r direct g = record {
  allowed = g.allowed;
  relation = r;
  info = record no_info {
    direct = (if is_some g.cond then false else direct);
    conditional = is_some g.cond;
  };
}

-- The check that is served for a stored one: it is about the same relation and has the same verdict.
abbrev pub own_verdict : Check → Option ConditionalCert → Check
own_verdict c cond = record {
  allowed = c.allowed;
  relation = c.relation;
  info = record no_info {
    direct = (if is_some cond then false else c.info.direct);
    conditional = is_some cond;
  };
}

module _ {x : Externals} (laws : ExternalLaws x) where
  open laws.grants use {peek, peek_add_self}

  -- No direct grant hides an indirect one: the check is direct, or none is cached under its key.
  abbrev pub Unhidden : Check → ProjectCache x → Type 0
  Unhidden c pc =
      (c.info.direct ≡ true)
      ⊎ ((c.info.direct ≡ false) × (peek pc.direct.cached (key c.relation) ≡ none))

  -- the grant of a check has the check's verdict
  grant_of-verdict :
      (c : Check) (g : CachedGrant) (pc : ProjectCache x)
      → grant_of c pc ≡ some g
      → g.allowed ≡ c.allowed
  unfolding grant_of
  grant_of-verdict c g pc e = ground arith

  module _ (ctx : x.cel.Context) (request : RequestContext x.cel) where
    cert_matches_of_Certified :
        (pc : ProjectCache x) (cert : ConditionalCert)
        → Certified laws ctx request pc (some cert)
        → cert_matches ctx request pc cert ≡ true
    unfolding cert_matches
    cert_matches_of_Certified pc cert (named, trues, falses) = ground (
      arith,
      conditions_of_Holds laws ctx request true pc cert.true_conds trues,
      conditions_of_Holds laws ctx request false pc cert.false_conds falses,
    )

    serve_grant-served :
        (pc : ProjectCache x) (r : Relation) (f : Found)
        → Certified laws ctx request pc f.grant.cond
        → serve_grant ctx request pc r f ≡ some (served r f.direct f.grant)
    unfolding serve_grant served
    serve_grant-served pc r f h = elim (Option-cases f.grant.cond) [
      | inl e ↦ ground arith
      | inr (cert, e) ↦
          let m = cert_matches_of_Certified pc cert (subst (Certified laws ctx request pc) e h) in
          ground arith
    ]

    answer_of_cached :
        (pc : ProjectCache x) (r : Relation) (f : Found)
        → cached_grant laws pc r ≡ some f
        → Certified laws ctx request pc f.grant.cond
        → answer laws ctx request pc r ≡ some (served r f.direct f.grant)
    unfolding answer
    answer_of_cached pc r f e h = rw (e, answer) (serve_grant-served pc r f h)

    cached_direct :
        (r : Relation) (g : CachedGrant) (pc : ProjectCache x)
        → cached_grant laws (record pc { direct = add_direct_relation r g pc.direct }) r
          ≡ some (record { grant = g; direct = true })
    unfolding cached_grant
    cached_direct r g pc =
        ground (arith, peek-add_direct_relation laws.grants r g pc.direct (key r), eq_refl (key r))

    cached_indirect :
        (r : Relation) (g : CachedGrant) (pc : ProjectCache x)
        → peek pc.direct.cached (key r) ≡ none
        → cached_grant laws (add_indirect_relation r g pc) r
          ≡ some (record { grant = g; direct = false })
    unfolding cached_grant add_indirect_relation
    cached_indirect r g pc h = ground (arith, h, peek_add_self pc.indirect (key r) g)

    store_grant-answer :
        (c : Check) (g : CachedGrant) (pc : ProjectCache x)
        → Unhidden c pc
        → Certified laws ctx request pc g.cond
        → answer laws ctx request (store_grant c (some g) pc) c.relation
          ≡ some (served c.relation c.info.direct g)
    unfolding store_grant
    store_grant-answer c g pc (inl d) h =
        rw (d, store_grant)
          (answer_of_cached (record pc { direct = add_direct_relation c.relation g pc.direct })
            c.relation (record { grant = g; direct = true }) (cached_direct c.relation g pc) h)
    store_grant-answer c g pc (inr (d, miss)) h =
        rw (d, store_grant)
          (answer_of_cached (add_indirect_relation c.relation g pc) c.relation
            (record { grant = g; direct = false }) (cached_indirect c.relation g pc miss) h)

    -- A check that gives a grant is answered from the cache right after it was stored, about its own
    -- relation and with its own verdict: for any request if the grant is unconditional, and for a
    -- request that satisfies the certificate if it is conditional; an indirect grant only if no direct
    -- one is cached under its key.
    pub stored_served :
        (c : Check) (g : CachedGrant) (pc : ProjectCache x)
        → grant_of c pc ≡ some g
        → Unhidden c pc
        → Certified laws ctx request pc g.cond
        → answer laws ctx request (store_check c pc) c.relation ≡ some (own_verdict c g.cond)
    unfolding store_check served
    stored_served c g pc e u h =
        subst {A = Bool}
          (λ verdict.
            answer laws ctx request (store_check c pc) c.relation
            ≡ some (served c.relation c.info.direct (record g { allowed = verdict })))
          (grant_of-verdict c g pc e)
          (subst
            (λ o.
              answer laws ctx request (store_grant c o pc) c.relation
              ≡ some (served c.relation c.info.direct g))
            (sym e) (store_grant-answer c g pc u h))
