-- ===== src/Metrics/Snapshot.antt =====
-- `SnapshotAndReset` hands every counter out once.
use authzcache.Base.{
  true, [], ◌∷◌, Option, none, some, arith, ◌≡◌, Text, text_eq, eq_iff, ◌==◌, or_else, is_empty,
  if◌then◌else◌, refl, subst, inl, inr, Bool-cases,
}
use authzcache.Base.Map.{Map, lookup, insert, lookup-insert}
use authzcache.Metrics.{
  ApiName, api_eq, CallMetrics, AggregatedMetrics, ProjectMetrics, Collector,
  new_aggregated_metrics, record_call, record_duration, get_or_create_project_metrics,
  record_metrics, snapshot, reset, snapshot_and_reset,
}

-- The counters of an API of a project, if it has any.
unfoldable pub counters : Text → ApiName → Map Text ProjectMetrics → Option AggregatedMetrics
counters project_id api c = lookup api (or_else (lookup project_id c) [])

lookup_of_is_empty : (api : ApiName) (m : ProjectMetrics) → is_empty m ≡ true → lookup api m ≡ none
unfolding lookup
lookup_of_is_empty api [] e = refl
lookup_of_is_empty api (x ∷ m) e = ground arith

-- A call changes the counters of its API and its project, and no others.
pub counters-record_metrics :
    (project_id q : Text) (api b : ApiName) (m : CallMetrics) (c : Collector)
    → counters q b (record_metrics project_id api m c) ≡ (
        if project_id == q
        then (if api == b
            then some (
                record_duration m
                  (record_call m (or_else (counters project_id api c) new_aggregated_metrics)))
            else counters q b c)
        else counters q b c)
unfolding counters record_metrics get_or_create_project_metrics
counters-record_metrics project_id q api b m c =
    let by_api = or_else (lookup project_id c) [] in
    let agg = or_else (lookup api by_api) new_aggregated_metrics in
    let agg' = record_duration m (record_call m agg) in
    ground (
      arith,
      lookup-insert project_id q (insert api agg' by_api) c,
      lookup-insert api b agg' by_api,
      eq_iff project_id q,
    )

counters-reset : (q : Text) (b : ApiName) (c : Collector) → counters q b (reset c) ≡ none
unfolding counters reset lookup
counters-reset q b [] = refl
counters-reset q b ((p, by_api) ∷ c) = ground (arith, counters-reset q b c)

-- Each project is stored once, as in a Go map.
abbrev pub Unique : Collector → Type 0
Unique [] = Unit {0}
Unique ((p, by_api) ∷ c) = (lookup p c ≡ none) × Unique c

pub snapshot_absent : (q : Text) (c : Collector) → lookup q c ≡ none → lookup q (snapshot c) ≡ none
unfolding snapshot lookup
snapshot_absent q [] e = refl
snapshot_absent q ((p, by_api) ∷ c) e = ground (arith, snapshot_absent q c)

counters-snapshot :
    (q : Text) (b : ApiName) (c : Collector) → Unique c → counters q b (snapshot c) ≡ counters q b c
unfolding counters snapshot lookup
counters-snapshot q b [] u = refl
counters-snapshot q b ((p, by_api) ∷ c) (absent, u) =
    ground (
      arith,
      counters-snapshot q b c u,
      snapshot_absent q c,
      lookup_of_is_empty b by_api,
      eq_iff p q,
    )

lookup_nil : (q : Text) → lookup {V = ProjectMetrics} q [] ≡ none
unfolding lookup
lookup_nil q = refl

insert-Unique : (q : Text) (m : ProjectMetrics) (c : Collector) → Unique c → Unique (insert q m c)
unfolding insert
insert-Unique q m [] u = (lookup_nil q, tt)
insert-Unique q m ((p, by_api) ∷ c) (absent, u) = elim (Bool-cases (p == q)) [
  | inl e ↦ rw e (subst (λ k. lookup k c ≡ none) ((eq_iff p q).0 e) absent, u)
  | inr e ↦
      rw e (ground (arith, lookup-insert q p m c, eq_iff p q, eq_iff q p), insert-Unique q m c u)
]

-- Recording keeps every project stored once.
pub record_metrics-Unique :
    (project_id : Text) (api : ApiName) (m : CallMetrics) (c : Collector)
    → Unique c
    → Unique (record_metrics project_id api m c)
unfolding record_metrics
record_metrics-Unique project_id api m c u = insert-Unique project_id _ c u

-- In a collector with one entry for each project, a snapshot holds the counters of every API of
-- every project as they are, and none are left afterwards.
pub snapshot_and_reset_lem :
    (q : Text) (b : ApiName) (c : Collector)
    → Unique c
    → (counters q b (snapshot_and_reset c).0 ≡ counters q b c)
      × (counters q b (snapshot_and_reset c).1 ≡ none)
unfolding snapshot_and_reset
snapshot_and_reset_lem q b c u = (counters-snapshot q b c u, counters-reset q b c)
