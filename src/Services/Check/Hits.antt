-- ===== src/Services/Check/Hits.antt =====
-- `Check` of relations that the cache answers.
use authzcache.Base.{
  ℕ, suc, ◌≡◌, refl, sym, ap, subst, List, [], ◌∷◌, map, Option, none, some, arith, nat_eq, length,
  true,
}
use authzcache.Sdk.{Relation, Check}
use authzcache.Cel.{RequestContext}
use authzcache.Cache.{Externals, ExternalLaws}
use authzcache.Cache.Checks.{Checked, collect, check_relations}
use authzcache.Cache.Checks.Gather.{gather, answer, check_relations-gather}
use authzcache.Metrics.{Collector, ApiName}
use authzcache.Services.Backend.{ok, Backend, Session}
use authzcache.Services.Check.{record_on, record_metric, complete, check_since, check}

-- if each relation has an answer, the answers are collected and nothing is left to ask
gather-hits :
    (ask : Relation → Option Check) (i : ℕ) (rs : List Relation) (answers : List Check)
    → map ask rs ≡ map some answers
    → ((gather ask i rs).unchecked ≡ []) × ((gather ask i rs).checks ≡ answers)
unfolding gather collect
gather-hits ask i [] [] e = (refl, refl)
gather-hits ask i [] (c ∷ cs) e = absurd (ground arith)
gather-hits ask i (r ∷ rs) [] e = absurd (ground arith)
gather-hits ask i (r ∷ rs) (c ∷ cs) e =
    let here : ask r ≡ some c = ground arith in
    let (left, found) = gather-hits ask (suc i) rs cs (ground arith) in
    rw (here, collect) (left, ap (◌∷◌ c) found)

module _ {x : Externals} (laws : ExternalLaws x) (b : Backend x) where
  -- the clock is read once more for the metric, if there is a collector
  abbrev pub metered : Option Collector → b.World → b.World
  metered none w = w
  metered (some collector) w = (b.read_clock w).1

  record_on-world :
      (ctx : x.cel.Context) (size start : ℕ) (o : Option Collector) (s : Session x b)
      → (record_on b ctx ApiName.check true 0 0 size start o s).world ≡ metered o s.world
  unfolding record_on
  record_on-world ctx size start none s = refl
  record_on-world ctx size start (some collector) s = refl

  module _ (ctx : x.cel.Context) (client : b.Client) (request : RequestContext x.cel) where
    complete-hits :
        (start : ℕ) (rs us : List Relation) (checked : Checked) (answers : List Check)
        (s : Session x b)
        → us ≡ []
        → checked.checks ≡ answers
        → ((complete b ctx client start rs request checked us s).0 ≡ ok answers)
          × ((complete b ctx client start rs request checked us s).1.world
              ≡ metered s.collector s.world)
    unfolding complete record_metric record_on
    complete-hits start rs [] checked answers s none_left found =
        (ap ok found, record_on-world ctx (length checked.checks) start s.collector s)
    complete-hits start rs (u ∷ us) checked answers s none_left found = absurd (ground arith)

    -- `Check` of relations each of which the cache answers returns those answers, in the order of the
    -- request, and makes no call of the SDK: of the outside it only reads the clock, at its start and
    -- once more if there is a collector.
    pub hits_make_no_call :
        (rs : List Relation) (answers : List Check) (s : Session x b)
        → map (answer laws ctx request s.cache) rs ≡ map some answers
        → ((check b ctx client rs request s).0 ≡ ok answers)
          × ((check b ctx client rs request s).1.world
              ≡ metered s.collector (b.read_clock s.world).1)
    unfolding check check_since
    hits_make_no_call rs answers s e =
        let (start, w) = b.read_clock s.world in
        let pc = (check_relations ctx request rs s.cache).1 in
        let t : Session x b = record s { cache = pc; world = w } in
        let (left, found) = gather-hits (answer laws ctx request s.cache) 0 rs answers e in
        subst {A = Checked}
          (λ c.
            ((complete b ctx client start rs request c c.unchecked t).0 ≡ ok answers)
            × ((complete b ctx client start rs request c c.unchecked t).1.world
                ≡ metered s.collector w))
          (sym (check_relations-gather laws ctx request rs s.cache).0)
          (complete-hits start rs _ (gather (answer laws ctx request s.cache) 0 rs) answers t left
            found)
