-- ===== src/Tests/MetricsTests.antt =====
-- The counters at concrete inputs.
use authzcache.Base.{
  eqb, List, ◌≡◌, refl, true, false, [], ◌∷◌, none, some, arith, text_eq, if◌then◌else◌,
}
use authzcache.Metrics.{
  max_int64, ApiName, CallMetrics, AggregatedMetrics, Collector, api_eq, record_metrics,
  new_aggregated_metrics,
}
use authzcache.Base.Texts.{codes}
use authzcache.Metrics.Reporter.Request.{base_url_for_project}
use authzcache.Metrics.Reporter.{Payload, build_payload, report}
use authzcache.Metrics.Reporter.Complete.{PostedOnce, SentOnce, report_complete}
use authzcache.Base.Map.{lookup}
use authzcache.Metrics.Reporter.Bounds.{build_payload-bounds}
use authzcache.Metrics.Totals.{least, greatest, every, one, is_hit, is_miss, total}
use authzcache.Metrics.Tally.{recorded, IsTally, recorded-IsTally}
use authzcache.Metrics.Snapshot.{counters}
use authzcache.Metrics.Collected.{Recording, record_all, calls_of, record_all-Counted}
use authzcache.Tests.Concrete.{doc, user}

abbrev hit : CallMetrics
hit = record {
  cache_hit = true;
  candidates_count = 2;
  filtered_count = 1;
  result_size = 1;
  duration_ms = 4;
}

abbrev miss : CallMetrics
miss = record {
  cache_hit = false;
  candidates_count = 0;
  filtered_count = 0;
  result_size = 3;
  duration_ms = 9;
}

recorded-IsTally_example : IsTally (miss ∷ hit ∷ []) (recorded (miss ∷ hit ∷ []))
unfolding total
recorded-IsTally_example = recorded-IsTally (miss ∷ hit ∷ []) (record {
  calls = omega arith;
  candidates = omega arith;
  filtered = omega arith;
  results = omega arith;
  durations = omega arith;
})

-- two calls for one API, and one for another project
abbrev recordings : List Recording
recordings =
    record { project_id = user; api = ApiName.check; metrics = miss }
    ∷ record { project_id = doc; api = ApiName.check; metrics = hit }
    ∷ record { project_id = user; api = ApiName.check; metrics = hit }
    ∷ []

record_all-Counted_example :
    (agg : AggregatedMetrics) × (counters user ApiName.check (record_all recordings) ≡ some agg)
    × IsTally (miss ∷ hit ∷ []) agg
unfolding calls_of total
record_all-Counted_example = record_all-Counted user ApiName.check recordings (record {
  calls = omega arith;
  candidates = omega arith;
  filtered = omega arith;
  results = omega arith;
  durations = omega arith;
})

abbrev collector : Collector
collector = record_metrics user ApiName.check hit (record_metrics doc ApiName.check miss [])

-- two projects, one call each
abbrev agg : AggregatedMetrics
agg = record new_aggregated_metrics { total_calls = 1; hit_count = 1; sum_result_size = 1 }

abbrev counted : Collector
counted = (doc, (ApiName.who_can_access, agg) ∷ []) ∷ (user, (ApiName.check, agg) ∷ []) ∷ []

report_complete_example :
    ((ps : List Payload) × SentOnce user ps (report counted).0
      × PostedOnce (build_payload ApiName.check agg) ps)
    × (counters user ApiName.check (report counted).1 ≡ none)
unfolding counters lookup
report_complete_example =
    report_complete user ApiName.check agg counted (refl, (refl, tt)) ((refl, tt), ((refl, tt), tt))
      refl refl

build_payload-bounds_example :
    let p = build_payload ApiName.check (recorded (miss ∷ hit ∷ [])) in
    (p.total_calls ≡ total every one (miss ∷ hit ∷ []))
    × (p.hit_count ≡ total is_hit one (miss ∷ hit ∷ []))
    × (p.miss_count ≡ total is_miss one (miss ∷ hit ∷ []))
    × (p.min_duration ≡ (
        if eqb (least every (miss ∷ hit ∷ [])) max_int64 then 0 else least every (miss ∷ hit ∷ [])))
    × (p.max_duration ≡ greatest every (miss ∷ hit ∷ []))
unfolding total
build_payload-bounds_example = build_payload-bounds ApiName.check (miss ∷ hit ∷ []) (record {
  calls = omega arith;
  candidates = omega arith;
  filtered = omega arith;
  results = omega arith;
  durations = omega arith;
})

-- the addresses of the reporter's own tests: no region, a region, and a configured address
short_id_url : base_url_for_project (codes "Puse1ar") [] ≡ codes "https://api.descope.com"
unfolding base_url_for_project
short_id_url = refl

regional_url :
    base_url_for_project (codes "Puse12aAc4T2V93bddihGEx2Ryhc8e5Z") []
    ≡ codes "https://api.use1.descope.com"
unfolding base_url_for_project
regional_url = refl

custom_url :
    base_url_for_project
      (codes "Puse12aAc4T2V93bddihGEx2Ryhc8e5Z")
      (codes " https://custom.example.com/ ")
    ≡ codes "https://custom.example.com"
unfolding base_url_for_project
custom_url = refl
