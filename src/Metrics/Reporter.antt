-- ===== src/Metrics/Reporter.antt =====
-- internal/services/metrics/reporter.go: the payload for the counters of an API, and what one report
-- posts. A float64 quotient stands as the pair of the numbers that are divided; posting is I/O.
pub mod Bounds
pub mod Request
pub mod Complete
use authzcache.Base.{
  ℕ, ◌+◌, ◌-◌, ◌/◌, ◌%◌, Bool, true, false, List, [], ◌∷◌, Option, none, some, Text, eqb, ltb,
  is_empty, if◌then◌else◌, ◌==◌,
}
use authzcache.Base.Map.{Map}
use authzcache.Metrics.{
  word, half, max_int64, add64, lt64, ApiName, AggregatedMetrics, ProjectMetrics, Collector,
  snapshot_and_reset,
}

-- `/` on int64: it rounds toward zero
magnitude : ℕ → ℕ
magnitude a = if ltb a half then a else word - a

unfoldable pub div64 : ℕ → ℕ → ℕ
unfolding magnitude
div64 a b =
    let q = magnitude a / magnitude b in
    if ltb a half
    then (if ltb b half then q else (word - q) % word)
    else (if ltb b half then (word - q) % word else q % word)

unfoldable pub min64 : ℕ → ℕ → ℕ
min64 a b = if lt64 b a then b else a

unfoldable pub max64 : ℕ → ℕ → ℕ
max64 a b = if lt64 a b then b else a

-- APIMetricsPayload
pub record Payload : Type 0 where
  pub api : ApiName
  pub hit_count : ℕ
  pub miss_count : ℕ
  pub total_calls : ℕ
  pub avg_hit_candidates : Option (ℕ × ℕ)
  pub avg_hit_filtered : Option (ℕ × ℕ)
  pub avg_result_size : Option (ℕ × ℕ)
  pub avg_duration : ℕ
  pub min_duration : ℕ
  pub max_duration : ℕ
  pub avg_duration_hit : ℕ
  pub min_duration_hit : ℕ
  pub max_duration_hit : ℕ
  pub avg_duration_miss : ℕ
  pub min_duration_miss : ℕ
  pub max_duration_miss : ℕ

-- the literal at the start, with the other fields zero
new_payload : ApiName → AggregatedMetrics → Payload
new_payload api agg = record {
  api = api;
  hit_count = agg.hit_count;
  miss_count = agg.miss_count;
  total_calls = agg.total_calls;
  avg_hit_candidates = none;
  avg_hit_filtered = none;
  avg_result_size = none;
  avg_duration = 0;
  min_duration = 0;
  max_duration = 0;
  avg_duration_hit = 0;
  min_duration_hit = 0;
  max_duration_hit = 0;
  avg_duration_miss = 0;
  min_duration_miss = 0;
  max_duration_miss = 0;
}

with_totals : AggregatedMetrics → Payload → Payload
with_totals agg p =
    if lt64 0 agg.total_calls
    then record p {
      avg_result_size = some (agg.sum_result_size, agg.total_calls);
      avg_duration = div64 (add64 agg.sum_duration_hits agg.sum_duration_misses) agg.total_calls;
    }
    else p

with_hits : AggregatedMetrics → Payload → Payload
with_hits agg p =
    if lt64 0 agg.hit_count
    then record p {
      avg_hit_candidates = some (agg.sum_candidates, agg.hit_count);
      avg_hit_filtered = some (agg.sum_filtered, agg.hit_count);
      avg_duration_hit = div64 agg.sum_duration_hits agg.hit_count;
      min_duration_hit = agg.min_duration_hits;
      max_duration_hit = agg.max_duration_hits;
    }
    else p

with_misses : AggregatedMetrics → Payload → Payload
with_misses agg p =
    if lt64 0 agg.miss_count
    then record p {
      avg_duration_miss = div64 agg.sum_duration_misses agg.miss_count;
      min_duration_miss = agg.min_duration_misses;
      max_duration_miss = agg.max_duration_misses;
    }
    else p

-- the overall minimum, which is zero where there is none
overall_min : AggregatedMetrics → ℕ
overall_min agg =
    let least =
      min64 (if eqb agg.hit_count 0 then max_int64 else agg.min_duration_hits)
        (if eqb agg.miss_count 0 then max_int64 else agg.min_duration_misses) in
    if eqb least max_int64 then 0 else least

pub build_payload : ApiName → AggregatedMetrics → Payload
unfolding new_payload with_totals with_hits with_misses overall_min
build_payload api agg =
    record (with_misses agg (with_hits agg (with_totals agg (new_payload api agg)))) {
      min_duration = overall_min agg;
      max_duration = max64 agg.max_duration_hits agg.max_duration_misses;
    }

-- the inner loop of `report`
pub payloads : ProjectMetrics → List Payload
payloads [] = []
payloads ((api, agg) ∷ by_api) =
    if eqb agg.total_calls 0 then payloads by_api else build_payload api agg ∷ payloads by_api

-- the outer loop: what is posted for each project, in the order of the snapshot
pub posts : Map Text ProjectMetrics → List (Text × List Payload)
unfolding payloads
posts [] = []
posts ((project_id, by_api) ∷ rest) =
    if is_empty (payloads by_api) then posts rest else (project_id, payloads by_api) ∷ posts rest

-- An error of a post is only logged.
pub report : Collector → List (Text × List Payload) × Collector
unfolding posts
report c = let (taken, left) = snapshot_and_reset c in (posts taken, left)
