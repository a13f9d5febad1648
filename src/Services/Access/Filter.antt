-- ===== src/Services/Access/Filter.antt =====
-- What the candidate filters return: those candidates whose check is allowed, in their order.
use authzcache.Base.{
  ℕ, suc, ◌≡◌, refl, ◌∙◌, true, false, List, [], ◌∷◌, map, Option, some, inl, inr, arith, get_elem?,
  is_empty, after, after-next, Bool-cases,
}
use authzcache.Sdk.{Relation, Check, GoError}
use authzcache.Cel.{RequestContext}
use authzcache.Cache.{Externals, ExternalLaws}
use authzcache.Cache.Checks.Gather.{answer}
use authzcache.Cache.Checks.Batch.{missing}
use authzcache.Services.Backend.{Reply, failed, Response, ok, error, Backend, BackendLaws, Session}
use authzcache.Services.Check.{check}
use authzcache.Services.Check.Loop.{Merged, relations_of}
use authzcache.Services.Check.Merge.{Answered, answered, Sent, sdk_reply, check-Answered}
use authzcache.Services.Access.{verified_from, keep_verified, filter_candidates}

-- Each candidate with its check: kept, in the order of the candidates, exactly if allowed.
pub data Filtered {A : Type 0} (relation_of : A → Relation)
    : List A → List Check → List A → Type 0 where
  done : Filtered relation_of [] [] []
  keep :
      {a : A} {rest kept : List A} {c : Check} {cs : List Check}
      → c.relation ≡ relation_of a
      → c.allowed ≡ true
      → Filtered relation_of rest cs kept
      → Filtered relation_of (a ∷ rest) (c ∷ cs) (a ∷ kept)
  drop :
      {a : A} {rest kept : List A} {c : Check} {cs : List Check}
      → c.relation ≡ relation_of a
      → c.allowed ≡ false
      → Filtered relation_of rest cs kept
      → Filtered relation_of (a ∷ rest) (c ∷ cs) kept

module _ {A : Type 0} (relation_of : A → Relation) where
  verified_from-keep :
      (candidates : List A) (i : ℕ) (c : Check) (cs : List Check) (a : A) (kept : List A)
      → c.allowed ≡ true
      → get_elem? candidates i ≡ some a
      → verified_from candidates (suc i) cs ≡ some kept
      → verified_from candidates i (c ∷ cs) ≡ some (a ∷ kept)
  unfolding verified_from
  verified_from-keep candidates i c cs a kept h at e = ground arith

  verified_from-drop :
      (candidates : List A) (i : ℕ) (c : Check) (cs : List Check)
      → c.allowed ≡ false
      → verified_from candidates i (c ∷ cs) ≡ verified_from candidates (suc i) cs
  unfolding verified_from
  verified_from-drop candidates i c cs h = ground arith

  verified_from-Filtered :
      (candidates rest : List A) (i : ℕ) (cs : List Check)
      → after i candidates ≡ rest
      → relations_of cs ≡ map relation_of rest
      → (kept : List A) × (verified_from candidates i cs ≡ some kept)
        × Filtered relation_of rest cs kept
  unfolding verified_from
  verified_from-Filtered candidates [] i [] e h = ([], refl, done)
  verified_from-Filtered candidates [] i (c ∷ cs) e h = absurd (ground arith)
  verified_from-Filtered candidates (a ∷ rest) i [] e h = absurd (ground arith)
  verified_from-Filtered candidates (a ∷ rest) i (c ∷ cs) e h =
      let (at, left) = after-next i candidates a rest e in
      let (chosen, run, f) =
        verified_from-Filtered candidates rest (suc i) cs left (ground arith) in
      elim (Bool-cases c.allowed) [
        | inl allowed ↦ (
          a ∷ chosen,
          verified_from-keep candidates i c cs a chosen allowed at run,
          keep (ground arith) allowed f,
        )
        | inr denied ↦ (
          chosen,
          verified_from-drop candidates i c cs denied ∙ run,
          drop (ground arith) denied f,
        )
      ]

-- What a filter returns, for the cached answers and for what the SDK replies to a check request: the
-- SDK's error when it was asked for the candidates without an answer, or the candidates that are
-- allowed in the merge of the answers with the checks that the SDK replied for these candidates.
pub data Verified {A : Type 0} (answer : Relation → Option Check)
    (ask : List Relation → Reply (List Check)) (relation_of : A → Relation) (candidates : List A)
    : Response (List A) → Type 0 where
  unavailable :
      (e : GoError)
      → is_empty (missing answer (map relation_of candidates)) ≡ false
      → ask (missing answer (map relation_of candidates)) ≡ failed e
      → Verified answer ask relation_of candidates (error e)
  verified :
      (sdk cs : List Check) (kept : List A)
      → Sent answer ask (map relation_of candidates) sdk
      → Merged answer (map relation_of candidates) sdk cs
      → Filtered relation_of candidates cs kept
      → Verified answer ask relation_of candidates (ok kept)

module _ {A : Type 0} (relation_of : A → Relation) (candidates : List A)
    (answers : Relation → Option Check) (ask : List Relation → Reply (List Check)) where
  keep_verified-Verified :
      (response : Response (List Check))
      → Answered answers ask (map relation_of candidates) response
      → Verified answers ask relation_of candidates (keep_verified candidates response)
  unfolding keep_verified
  keep_verified-Verified _ (Answered.refused e some_left asked) = unavailable e some_left asked
  keep_verified-Verified _ (answered sdk cs sent merged about) =
      let (chosen, run, f) =
        verified_from-Filtered relation_of candidates candidates 0 cs refl about in
      rw (run, keep_verified) (verified sdk cs chosen sent merged f)

module _ {x : Externals} (laws : ExternalLaws x) (b : Backend x) (honest : BackendLaws x b) where
  -- If the SDK answers in the order of the request, a filter never panics: it returns, in their order,
  -- exactly the candidates that are allowed, each by the cached answer for its own relation where there
  -- is one, and else by the check that the SDK replies for it when it is asked for exactly the
  -- candidates without an answer; if the SDK replies to that with an error, it returns the error.
  pub filter_candidates-Verified :
      {A : Type 0} (ctx : x.cel.Context) (client : b.Client) (relation_of : A → Relation)
      (candidates : List A) (request : RequestContext x.cel) (s : Session x b)
      → Verified
          (answer laws ctx request s.cache)
          (sdk_reply laws b honest ctx client request (b.read_clock s.world).1)
          relation_of
          candidates
          (filter_candidates b ctx client relation_of candidates request s).0
  unfolding filter_candidates
  filter_candidates-Verified ctx client relation_of candidates request s =
      keep_verified-Verified relation_of candidates (answer laws ctx request s.cache)
        (sdk_reply laws b honest ctx client request (b.read_clock s.world).1)
        (check b ctx client (map relation_of candidates) request s).0
        (check-Answered laws b honest ctx client request (map relation_of candidates) s)
