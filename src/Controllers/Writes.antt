-- ===== src/Controllers/Writes.antt =====
-- What a write over gRPC leaves: `CreateFGARelations` and `DeleteFGARelations` of the controller.
use authzcache.Base.{◌≡◌, ap, ◌⊎◌, inl, inr, List, [], ◌∷◌, none, some, Text, text_eq}
use authzcache.Base.Map.{lookup}
use authzcache.Sdk.{Relation}
use authzcache.Cel.{RequestContext}
use authzcache.Direct.Sweep.{IsUnambiguous}
use authzcache.Cache.{Externals, ExternalLaws}
use authzcache.Cache.Checks.Gather.{answer}
use authzcache.Cache.Updates.Invalidation.{Touches, Indexed}
use authzcache.Errors.{service_error_from_sdk_error}
use authzcache.Services.Backend.{Reply, replied, failed, Response, Backend}
use authzcache.Services.Projects.{Project, Service}
use authzcache.Services.Projects.Writes.{Outcome, Settled, writes-Settled}
use authzcache.Controllers.{
  Tuple, relation_from_tuple, relations_from_tuples, Reaction, returned, refused, Messages,
  reaction, respond, create_tuples, delete_tuples,
}

-- `q` has the resource or the target of one of the tuples.
abbrev pub TupleTouches : List Tuple → Relation → Type 0
TupleTouches [] q = ⊥
TupleTouches (t ∷ ts) q = ((q.resource ≡ t.resource) ⊎ (q.target ≡ t.target)) ⊎ TupleTouches ts q

touched_relations :
    (tuples : List Tuple) (q : Relation)
    → TupleTouches tuples q
    → Touches (relations_from_tuples tuples) q
unfolding relations_from_tuples relation_from_tuple
touched_relations [] q h = h
touched_relations (t ∷ ts) q (inl here) = inl here
touched_relations (t ∷ ts) q (inr later) = inr (touched_relations ts q later)

module _ {x : Externals} (messages : Messages x) (laws : ExternalLaws x) (b : Backend x) where
  -- A write that the backend accepts is answered without error and leaves no answer for `q`, for any
  -- request; one that it refuses is answered with its error, converted, and leaves the project as it
  -- was.
  abbrev pub Effect :
      Project b → Relation → Reply (Unit {0}) → Project b → Reaction (Unit {0}) → Type 0
  Effect p q (replied u) left reaction =
      (reaction ≡ returned u)
      × ((ctx : x.cel.Context) (request : RequestContext x.cel)
          → answer laws ctx request left.cache q ≡ none)
  Effect p q (failed e) left reaction =
      (reaction ≡ refused (service_error_from_sdk_error messages.error_text (some e))) × (left ≡ p)

  -- What a write over gRPC leaves of the project `id`, which was `p`, for what the backend replied.
  pub record Written (id : Text) (p : Project b) (q : Relation) (reply : Reply (Unit {0}))
      (out : Reaction (Unit {0}) × Service b) : Type 0 where
    pub left : Project b
    pub there : lookup id out.1.projects ≡ some left
    pub effect : Effect p q reply left out.0

  outcome-Effect :
      (p : Project b) (q : Relation) (reply : Reply (Unit {0})) (left : Project b)
      (response : Response (Unit {0}))
      → Outcome laws b p q reply left response
      → Effect p q reply left (reaction messages (λ u. u) response)
  unfolding reaction
  outcome-Effect p q (replied u) left response (e, h) = (ap (reaction messages (λ u. u)) e, h)
  outcome-Effect p q (failed err) left response (e, h) = (ap (reaction messages (λ u. u)) e, h)

  respond-Written :
      (id : Text) (p : Project b) (q : Relation) (reply : Reply (Unit {0}))
      (out : Response (Unit {0}) × Service b)
      → Settled laws b id p q reply out
      → Written id p q reply (respond messages b (λ u. u) out)
  unfolding respond
  respond-Written id p q reply out h = record {
    left = h.left;
    there = h.there;
    effect = outcome-Effect p q reply h.left out.0 h.outcome;
  }

  -- A creation or a deletion of tuples over gRPC on a project that the service has, whose cached
  -- direct grants are all findable: if the backend accepts the relations that it is sent, then the
  -- response is without error and no relation with an unambiguous key that has the resource or the
  -- target of a tuple of the request is answered from the project's cache afterwards, for any
  -- request; if the backend refuses them, the response is its error, converted, and the project is as
  -- it was.
  pub tuples-Written :
      (ctx : x.cel.Context) (p : Project b) (s : Service b) (tuples : List Tuple) (q : Relation)
      → lookup (b.project_id ctx) s.projects ≡ some p
      → Indexed laws p.cache
      → IsUnambiguous q
      → TupleTouches tuples q
      → Written
          (b.project_id ctx)
          p
          q
          (b.create_relations p.client ctx (relations_from_tuples tuples) s.world).0
          (create_tuples messages b ctx tuples s)
        × Written
            (b.project_id ctx)
            p
            q
            (b.delete_relations p.client ctx (relations_from_tuples tuples) s.world).0
            (delete_tuples messages b ctx tuples s)
  unfolding create_tuples delete_tuples
  tuples-Written ctx p s tuples q e h u t =
      let (created, deleted) =
        writes-Settled laws b ctx p s (relations_from_tuples tuples) q e h u
          (touched_relations tuples q t) in
      (
        respond-Written (b.project_id ctx) p q _ _ created,
        respond-Written (b.project_id ctx) p q _ _ deleted,
      )
