-- ===== src/Controllers/Verdicts.antt =====
-- What a client gets from `Check` over gRPC.
use mathlib.Core.Path.{ap₂}
use authzcache.Base.{
  arith, ◌≡◌, refl, ap, Bool, List, [], ◌∷◌, map, Option, some, text_eq, false, is_empty,
}
use authzcache.Sdk.{Relation, Check, GoError}
use authzcache.Cache.{Externals, ExternalLaws}
use authzcache.Cache.Checks.Gather.{answer}
use authzcache.Cache.Checks.Batch.{missing}
use authzcache.Errors.{service_error_from_sdk_error}
use authzcache.Services.Backend.{Reply, replied, failed, Response, Backend, BackendLaws}
use authzcache.Services.Check.Loop.{Merged, relations_of}
use authzcache.Services.Check.Merge.{Answered, answered, Sent, sdk_reply}
use authzcache.Services.Projects.{Project, Service, get_or_create_project_cache}
use authzcache.Services.Projects.Found.{check_method-Answered}
use authzcache.Controllers.{
  Tuple, CheckResponseTuple, relation_from_tuple, relations_from_tuples, tuple_of, response_tuple,
  Reaction, returned, refused, Messages, extra_context, reaction, respond, check_tuples,
}

abbrev tuples_of : List CheckResponseTuple → List Tuple
tuples_of = map (λ (t : CheckResponseTuple). t.tuple)

abbrev verdicts_of : List CheckResponseTuple → List Bool
verdicts_of = map (λ (t : CheckResponseTuple). t.allowed)

abbrev allowed_of : List Check → List Bool
allowed_of = map (λ (c : Check). c.allowed)

module _ {x : Externals} (messages : Messages x) where
  -- For the cached answers and for what the SDK replies to a check request: the converted error of the
  -- SDK when it was asked for the tuples without an answer, or a response for each tuple of the
  -- request, in its order, with the verdict of the merge of the answers with the checks that the SDK
  -- replied for these tuples.
  pub data Verdicts (answer : Relation → Option Check) (ask : List Relation → Reply (List Check))
      (tuples : List Tuple) : Reaction (List CheckResponseTuple) → Type 0 where
    converted :
        (e : GoError)
        → is_empty (missing answer (relations_from_tuples tuples)) ≡ false
        → ask (missing answer (relations_from_tuples tuples)) ≡ failed e
        → Verdicts answer ask tuples
            (refused (service_error_from_sdk_error messages.error_text (some e)))
    verdicts :
        (sdk cs : List Check) (responses : List CheckResponseTuple)
        → Sent answer ask (relations_from_tuples tuples) sdk
        → Merged answer (relations_from_tuples tuples) sdk cs
        → tuples_of responses ≡ tuples
        → verdicts_of responses ≡ allowed_of cs
        → Verdicts answer ask tuples (returned responses)

  -- the responses have the tuples of the request and the verdicts of the checks
  responses-tuples :
      (tuples : List Tuple) (cs : List Check)
      → relations_of cs ≡ relations_from_tuples tuples
      → tuples_of (map response_tuple cs) ≡ tuples
  unfolding relations_from_tuples relation_from_tuple response_tuple tuple_of
  responses-tuples [] [] e = refl
  responses-tuples [] (c ∷ cs) e = absurd (ground arith)
  responses-tuples (t ∷ ts) [] e = absurd (ground arith)
  responses-tuples (t ∷ ts) (c ∷ cs) e =
      let same : c.relation ≡ relation_from_tuple t = ground arith in
      ap₂ ◌∷◌ (ap tuple_of same) (responses-tuples ts cs (ground arith))

  responses-allowed : (cs : List Check) → verdicts_of (map response_tuple cs) ≡ allowed_of cs
  unfolding response_tuple
  responses-allowed [] = refl
  responses-allowed (c ∷ cs) = ap (◌∷◌ c.allowed) (responses-allowed cs)

  reaction-Verdicts :
      (answers : Relation → Option Check) (ask : List Relation → Reply (List Check))
      (tuples : List Tuple) (response : Response (List Check))
      → Answered answers ask (relations_from_tuples tuples) response
      → Verdicts answers ask tuples (reaction messages (map response_tuple) response)
  unfolding reaction
  reaction-Verdicts answers ask tuples _ (Answered.refused e some_left asked) =
      converted e some_left asked
  reaction-Verdicts answers ask tuples _ (answered sdk cs sent merged about) =
      verdicts sdk cs (map response_tuple cs) sent merged (responses-tuples tuples cs about)
        (responses-allowed cs)

  module _ (laws : ExternalLaws x) (b : Backend x) (honest : BackendLaws x b)
      (ctx : x.cel.Context) where
    -- If the SDK answers in the order of the request and the service has or can make the project,
    -- then `Check` over gRPC does not panic. It returns one response for each tuple of the request, in
    -- its order and with the five fields of that tuple, whose verdict is the one of the project's
    -- cached answer for the tuple where there is one, and else the one of the check that the SDK
    -- replies for it when it is asked for exactly the tuples without an answer; if the SDK replies to
    -- that with an error, it returns the converted error.
    pub check_tuples-Verdicts :
        (tuples : List Tuple) (fields : Option messages.Struct) (p : Project b) (s s' : Service b)
        → get_or_create_project_cache b ctx (record s { world = (b.read_clock s.world).1 })
          ≡ (replied p, s')
        → Verdicts
            (answer laws ctx (extra_context messages fields) p.cache)
            (sdk_reply laws b honest ctx p.client (extra_context messages fields) s'.world)
            tuples
            (check_tuples messages b ctx tuples fields s).0
    unfolding check_tuples respond extra_context
    check_tuples-Verdicts tuples fields p s s' e =
        reaction-Verdicts (answer laws ctx (extra_context messages fields) p.cache)
          (sdk_reply laws b honest ctx p.client (extra_context messages fields) s'.world) tuples _
          (check_method-Answered b laws honest ctx (relations_from_tuples tuples)
            (extra_context messages fields) p s s' e)
