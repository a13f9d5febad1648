-- ===== src/Services/Check/Merge.antt =====
-- The answers of `Check`: one for each relation, in the order of the request.
use authzcache.Base.{
  ℕ, ◌≡◌, refl, sym, ◌∙◌, ap, subst, false, List, [], ◌∷◌, Option, some, nat_eq, ◌⊎◌, inl, inr,
  is_empty,
}
use authzcache.Sdk.{Relation, Check, GoError}
use authzcache.Cel.{RequestContext}
use authzcache.Cache.{Externals, ExternalLaws}
use authzcache.Cache.Checks.{Checked, check_relations}
use authzcache.Cache.Checks.Gather.{gather, answer, check_relations-gather}
use authzcache.Cache.Checks.Batch.{missing, gather-batch}
use authzcache.Cache.Checks.Sound.{answer-Served}
use authzcache.Services.Backend.{
  Reply, replied, failed, Response, ok, error, Backend, BackendLaws, Session,
}
use authzcache.Services.Check.{respond_merged, take_checks, complete, check_since, check}
use authzcache.Services.Check.Loop.{
  Merged, gather-Agrees, relations_of, merge-Merged, Merged-in_order, gather-Merged,
}

-- The checks that the SDK replied for the relations without an answer; if there are none, it is not
-- asked.
abbrev pub Sent :
    (Relation → Option Check)
    → (List Relation → Reply (List Check))
    → List Relation
    → List Check
    → Type 0
Sent answer ask rs sdk =
    ((missing answer rs ≡ []) × (sdk ≡ []))
    ⊎ ((is_empty (missing answer rs) ≡ false) × (ask (missing answer rs) ≡ replied sdk))

-- What `Check` returns, for the cached answers and for what the SDK replies to a request: the error of
-- the SDK when it was asked for the relations without an answer, or the merge of the answers with the
-- checks that the SDK replied for these relations, which are none if every relation has an answer.
pub data Answered (answer : Relation → Option Check) (ask : List Relation → Reply (List Check))
    (rs : List Relation) : Response (List Check) → Type 0 where
  refused :
      (e : GoError)
      → is_empty (missing answer rs) ≡ false
      → ask (missing answer rs) ≡ failed e
      → Answered answer ask rs (error e)
  answered :
      (sdk cs : List Check)
      → Sent answer ask rs sdk
      → Merged answer rs sdk cs
      → relations_of cs ≡ rs
      → Answered answer ask rs (ok cs)

module _ {x : Externals} (laws : ExternalLaws x) (b : Backend x) (honest : BackendLaws x b)
    (ctx : x.cel.Context) (client : b.Client) (request : RequestContext x.cel) where
  -- what the SDK replies to a request for relations, in a world
  abbrev pub sdk_reply : b.World → List Relation → Reply (List Check)
  sdk_reply w rs = (b.check_with_context client ctx rs request w).0

  unchecked-missing :
      (answer : Relation → Option Check) (rs : List Relation)
      → (gather answer 0 rs).unchecked ≡ missing answer rs
  unchecked-missing answer rs = ap (λ k. k.unchecked) (gather-batch answer 0 rs)

  take_checks-Answered :
      (answer : Relation → Option Check)
      → ((r : Relation) (c : Check) → answer r ≡ some c → c.relation ≡ r)
      → (ask : List Relation → Reply (List Check)) (start : ℕ) (rs : List Relation)
        (reply : Reply (List Check)) (s : Session x b)
      → is_empty (missing answer rs) ≡ false
      → ask (missing answer rs) ≡ reply
      → ((cs : List Check) → reply ≡ replied cs → relations_of cs ≡ missing answer rs)
      → Answered answer ask rs (take_checks b ctx client start rs (gather answer 0 rs) reply s).0
  unfolding take_checks respond_merged
  take_checks-Answered answer about ask start rs (failed e) s some_left asked h =
      refused e some_left asked
  take_checks-Answered answer about ask start rs (replied sdk) s some_left asked h =
      let (result, run, merged) =
        merge-Merged answer about 0 0 rs (gather answer 0 rs).index_to_check sdk sdk
          (gather-Agrees answer 0 rs) refl (h sdk refl ∙ sym (unchecked-missing answer rs)) in
      rw run (
        answered sdk result (inr (some_left, asked)) merged
          (Merged-in_order answer rs sdk result merged))

  complete-Answered :
      (answer : Relation → Option Check)
      → ((r : Relation) (c : Check) → answer r ≡ some c → c.relation ≡ r)
      → (start : ℕ) (rs us : List Relation) (s : Session x b) → missing answer rs ≡ us
      → Answered answer
          (sdk_reply s.world)
          rs
          (complete b ctx client start rs request (gather answer 0 rs) us s).0
  unfolding complete
  complete-Answered answer about start rs [] s e =
      let merged = gather-Merged answer about 0 rs (unchecked-missing answer rs ∙ e) in
      answered [] (gather answer 0 rs).checks (inl (e, refl)) merged
        (Merged-in_order answer rs [] _ merged)
  complete-Answered answer about start rs (u ∷ us) s e =
      let call = b.check_with_context client ctx (u ∷ us) request s.world in
      take_checks-Answered answer about (sdk_reply s.world) start rs call.0
        (record s { world = call.1 }) (ap is_empty e) (ap (sdk_reply s.world) e)
        (λ cs got. honest.in_order client ctx (u ∷ us) request s.world cs got ∙ sym e)

  pub check_since-Answered :
      (rs : List Relation) (start : ℕ) (s : Session x b)
      → Answered
          (answer laws ctx request s.cache)
          (sdk_reply s.world)
          rs
          (check_since b ctx client rs request start s).0
  unfolding check_since
  check_since-Answered rs start s =
      let ask = answer laws ctx request s.cache in
      let after_cache = (check_relations ctx request rs s.cache).1 in
      subst {A = Checked}
        (λ c.
          Answered ask (sdk_reply s.world) rs
            (complete b ctx client start rs request c c.unchecked
              (record s { cache = after_cache })).0)
        (sym (check_relations-gather laws ctx request rs s.cache).0)
        (complete-Answered ask (λ r c e. (answer-Served laws ctx request s.cache r c e).relation)
          start rs _ (record s { cache = after_cache }) (sym (unchecked-missing ask rs)))

  -- If the SDK answers in the order of the request, then `Check` never panics. It returns one check
  -- for each relation of the request, about that relation and in that order: the cached answer where
  -- the cache has one when the call starts, and where it has none the next of the checks that the SDK
  -- replies for exactly the relations without an answer. If there are such relations and the SDK
  -- replies for them with an error, it returns that error.
  pub check-Answered :
      (rs : List Relation) (s : Session x b)
      → Answered
          (answer laws ctx request s.cache)
          (sdk_reply (b.read_clock s.world).1)
          rs
          (check b ctx client rs request s).0
  unfolding check
  check-Answered rs s =
      let (start, w) = b.read_clock s.world in
      check_since-Answered rs start (record s { world = w })
