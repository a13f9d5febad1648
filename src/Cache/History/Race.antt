-- ===== src/Cache/History/Race.antt =====
-- A `Check` that runs beside a deletion: its SDK call is answered before the deletion, and its checks
-- are stored after the deletion has invalidated the cache.
use authzcache.Base.{ℕ, ◌≡◌, true, List, [], ◌∷◌, none, some, inl, text_eq}
use authzcache.Sdk.{Relation, Check, Modified}
use authzcache.Cel.{RequestContext}
use authzcache.Direct.{CachedGrant}
use authzcache.Direct.Sweep.{IsUnambiguous}
use authzcache.Cache.{Externals, ExternalLaws, ProjectCache, Settings, new_project_authz_cache}
use authzcache.Cache.Checks.Gather.{answer}
use authzcache.Cache.Checks.Sound.{Certified}
use authzcache.Cache.Updates.{grant_of, update_cache_with_checks}
use authzcache.Cache.Updates.Hits.{own_verdict, stored_served}
use authzcache.Cache.Updates.Invalidation.{Touches}
use authzcache.Cache.Polling.{Fetched, changes}
use authzcache.Cache.Polling.Changes.{Reported}
use authzcache.Cache.Polling.Tick.{polling-Forgotten}
use authzcache.Cache.History.{
  Call, deleted, checked, tick, step, run, history-Indexed, written_not_served, step-Indexed,
  run-Indexed, answer_of_Forgotten,
}

module _ {x : Externals} (laws : ExternalLaws x) (ctx : x.cel.Context)
    (request : RequestContext x.cel) where
  -- After any history on a new project cache, a deletion that touches a relation with an unambiguous
  -- key leaves no answer for it; but a direct check of the relation that gives a grant and is stored
  -- after the deletion is answered with the check's own verdict again, for a request that satisfies
  -- the grant's certificate if it has one. Whatever calls follow, the next poll at which the backend
  -- reports a change of the relation's resource or target leaves no answer.
  pub late_check_until_poll :
      (settings : Settings) (start : ℕ) (pc : ProjectCache x) (cs more : List (Call x))
      (rs : List Relation) (c : Check) (g : CachedGrant) (remote : ℕ → Fetched) (now later : ℕ)
      (m : Modified)
      → new_project_authz_cache x settings start ≡ some pc
      → Touches rs c.relation
      → IsUnambiguous c.relation
      → c.info.direct ≡ true
      → grant_of c (step x (deleted rs) (run x cs pc)) ≡ some g
      → Certified laws ctx request (step x (deleted rs) (run x cs pc)) g.cond
      → remote
          (run x more
            (step x (checked (c ∷ [])) (step x (deleted rs) (run x cs pc)))).remote.last_poll_time
        ≡ changes m
      → Reported m c.relation
      → (answer laws ctx request (step x (deleted rs) (run x cs pc)) c.relation ≡ none)
        × (answer laws ctx request
              (step x (checked (c ∷ [])) (step x (deleted rs) (run x cs pc)))
              c.relation
            ≡ some (own_verdict c g.cond))
        × (answer laws ctx request
              (step x
                (tick remote now later)
                (run x more (step x (checked (c ∷ [])) (step x (deleted rs) (run x cs pc)))))
              c.relation
            ≡ none)
  unfolding step update_cache_with_checks
  late_check_until_poll settings start pc cs more rs c g remote now later m made t u d gives holds
        fetched reported =
      let after_delete = step x (deleted rs) (run x cs pc) in
      let late = step x (checked (c ∷ [])) after_delete in
      let indexed = run-Indexed laws more late (
        step-Indexed laws (checked (c ∷ [])) after_delete (
          step-Indexed laws (deleted rs) (run x cs pc)
            (history-Indexed laws settings start pc cs made))) in
      (
        (written_not_served laws ctx request settings start pc made cs c.relation u now rs t).1,
        stored_served laws ctx request c g after_delete gives (inl d) holds,
        answer_of_Forgotten laws ctx request c.relation
            (step x (tick remote now later) (run x more late))
            (polling-Forgotten laws remote now later m c.relation (run x more late) indexed u
              fetched reported),
      )
