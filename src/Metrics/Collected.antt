-- ===== src/Metrics/Collected.antt =====
-- The counters of a collector against all the calls that were recorded in it.
use authzcache.Base.{
  ◌≡◌, refl, sym, ◌∙◌, ap, subst, List, [], ◌∷◌, Option, none, some, inl, inr, Text, text_eq, ◌==◌,
  eq_iff, or_else, ◌&&◌, if◌then◌else◌, Bool-cases,
}
use authzcache.Base.Map.{lookup}
use authzcache.Metrics.{
  ApiName, api_eq, CallMetrics, AggregatedMetrics, Collector, new_aggregated_metrics, record_call,
  record_duration, record_metrics,
}
use authzcache.Metrics.Snapshot.{counters, counters-record_metrics}
use authzcache.Metrics.Tally.{recorded, InRange, IsTally, recorded-IsTally}

-- A call to `Record`: the project, the API and the metrics.
pub record Recording : Type 0 where
  pub project_id : Text
  pub api : ApiName
  pub metrics : CallMetrics

-- The collector after the calls of a list on a new one, the newest call first.
unfoldable pub record_all : List Recording → Collector
record_all [] = []
record_all (r ∷ rs) = record_metrics r.project_id r.api r.metrics (record_all rs)

-- The metrics of the calls for an API of a project.
unfoldable pub calls_of : Text → ApiName → List Recording → List CallMetrics
calls_of q b [] = []
calls_of q b (r ∷ rs) =
    if (r.project_id == q) && (r.api == b) then r.metrics ∷ calls_of q b rs else calls_of q b rs

-- no counters if there was no call
tally : List CallMetrics → Option AggregatedMetrics
tally [] = none
tally (m ∷ ms) = some (recorded (m ∷ ms))

tally_or_new : (ms : List CallMetrics) → or_else (tally ms) new_aggregated_metrics ≡ recorded ms
unfolding tally recorded
tally_or_new [] = refl
tally_or_new (m ∷ ms) = refl

counters-record_all :
    (q : Text) (b : ApiName) (rs : List Recording)
    → counters q b (record_all rs) ≡ tally (calls_of q b rs)
unfolding record_all calls_of counters lookup tally recorded
counters-record_all q b [] = refl
counters-record_all q b (r ∷ rs) =
    counters-record_metrics r.project_id q r.api b r.metrics (record_all rs)
    ∙ elim (Bool-cases (r.project_id == q)) [
      | inr other ↦ rw other (counters-record_all q b rs)
      | inl same ↦ elim (Bool-cases (r.api == b)) [
        | inr other ↦ rw (same, other) (counters-record_all q b rs)
        | inl too ↦
            let before : or_else (counters r.project_id r.api (record_all rs))
                  new_aggregated_metrics
                ≡ recorded (calls_of q b rs) =
              ap (λ p. or_else (counters p r.api (record_all rs)) new_aggregated_metrics)
                ((eq_iff r.project_id q).0 same)
              ∙ ap (λ a. or_else (counters q a (record_all rs)) new_aggregated_metrics)
                  ((eq_iff r.api b).0 too)
              ∙ ap (λ o. or_else o new_aggregated_metrics) (counters-record_all q b rs)
              ∙ tally_or_new (calls_of q b rs) in
            rw (same, too)
              (ap (λ agg. some (record_duration r.metrics (record_call r.metrics agg))) before)
      ]
    ]

-- No counters for no call, and else counters that are what the calls add up to.
abbrev pub Counted : List CallMetrics → Option AggregatedMetrics → Type 0
Counted [] o = o ≡ none
Counted (m ∷ ms) o = (agg : AggregatedMetrics) × (o ≡ some agg) × IsTally (m ∷ ms) agg

tally-Counted : (ms : List CallMetrics) → InRange ms → Counted ms (tally ms)
unfolding tally
tally-Counted [] r = refl
tally-Counted (m ∷ ms) r = (recorded (m ∷ ms), refl, recorded-IsTally (m ∷ ms) r)

-- After any calls to `Record` on a new collector, the counters of an API of a project are what the
-- calls for that API and that project add up to, as long as no sum of theirs leaves the int64 range:
-- the number of calls, the sums, and the least and greatest durations, hits and misses apart. There
-- are none if there was no such call, and the calls for other projects and APIs do not count.
pub record_all-Counted :
    (q : Text) (b : ApiName) (rs : List Recording)
    → InRange (calls_of q b rs)
    → Counted (calls_of q b rs) (counters q b (record_all rs))
record_all-Counted q b rs r =
    subst (Counted (calls_of q b rs)) (sym (counters-record_all q b rs))
      (tally-Counted (calls_of q b rs) r)
