-- ===== src/Metrics.antt =====
-- internal/services/metrics/collector.go: the counters of one API of one project, recording a call
-- and taking a snapshot. An int64 is its bit pattern; additions wrap and comparisons are signed. The
-- mutex of a project makes `Record` and the copying of one project's counters atomic.
pub mod Totals
pub mod Tally
pub mod Snapshot
pub mod Collected
pub mod Reporter
use authzcache.Base.{
  ℕ, ◌+◌, ◌%◌, ◌-◌, Bool, true, false, List, [], ◌∷◌, Option, none, some, Text, text_eq, nat_eq, Eq,
  ◌==◌, ltb, or_else, is_empty, ◌↔◌, ◌≡◌, arith, if◌then◌else◌,
}
use authzcache.Base.Map.{Map, lookup, insert}

abbrev pub word : ℕ
word = 0x1_0000_0000_0000_0000

abbrev pub half : ℕ
half = 0x8000_0000_0000_0000

-- math.MaxInt64
abbrev pub max_int64 : ℕ
max_int64 = 0x7fff_ffff_ffff_ffff

abbrev pub add64 : ℕ → ℕ → ℕ
add64 a b = (a + b) % word

-- signed `<`
abbrev pub lt64 : ℕ → ℕ → Bool
lt64 a b = ltb ((a + half) % word) ((b + half) % word)

pub data ApiName : Type 0 where
  check who_can_access what_can_target_access : ApiName

abbrev pub api_beq : ApiName → ApiName → Bool
api_beq check check = true
api_beq who_can_access who_can_access = true
api_beq what_can_target_access what_can_target_access = true
api_beq _ _ = false

pub api_beq_iff : (a b : ApiName) → (api_beq a b ≡ true) ↔ (a ≡ b)
api_beq_iff check b = ground arith
api_beq_iff who_can_access b = ground arith
api_beq_iff what_can_target_access b = ground arith

instance abbrev pub api_eq : Eq ApiName
api_eq = record { test = api_beq; decides = api_beq_iff }

pub record CallMetrics : Type 0 where
  pub cache_hit : Bool
  pub candidates_count : ℕ
  pub filtered_count : ℕ
  pub result_size : ℕ
  pub duration_ms : ℕ

pub record AggregatedMetrics : Type 0 where
  pub hit_count : ℕ
  pub miss_count : ℕ
  pub total_calls : ℕ
  pub sum_candidates : ℕ
  pub sum_filtered : ℕ
  pub sum_result_size : ℕ
  pub sum_duration_hits : ℕ
  pub sum_duration_misses : ℕ
  pub min_duration_hits : ℕ
  pub max_duration_hits : ℕ
  pub min_duration_misses : ℕ
  pub max_duration_misses : ℕ

pub new_aggregated_metrics : AggregatedMetrics
new_aggregated_metrics = record {
  hit_count = 0;
  miss_count = 0;
  total_calls = 0;
  sum_candidates = 0;
  sum_filtered = 0;
  sum_result_size = 0;
  sum_duration_hits = 0;
  sum_duration_misses = 0;
  min_duration_hits = max_int64;
  max_duration_hits = 0;
  min_duration_misses = max_int64;
  max_duration_misses = 0;
}

-- the counters of every call
pub record_call : CallMetrics → AggregatedMetrics → AggregatedMetrics
record_call m agg = record agg {
  total_calls = add64 agg.total_calls 1;
  sum_candidates = add64 agg.sum_candidates m.candidates_count;
  sum_filtered = add64 agg.sum_filtered m.filtered_count;
  sum_result_size = add64 agg.sum_result_size m.result_size;
}

-- the branch of `Record` for a hit
pub record_hit : CallMetrics → AggregatedMetrics → AggregatedMetrics
record_hit m agg = record agg {
  hit_count = add64 agg.hit_count 1;
  sum_duration_hits = add64 agg.sum_duration_hits m.duration_ms;
  min_duration_hits =
      (if lt64 m.duration_ms agg.min_duration_hits then m.duration_ms else agg.min_duration_hits);
  max_duration_hits =
      (if lt64 agg.max_duration_hits m.duration_ms then m.duration_ms else agg.max_duration_hits);
}

-- and the one for a miss
pub record_miss : CallMetrics → AggregatedMetrics → AggregatedMetrics
record_miss m agg = record agg {
  miss_count = add64 agg.miss_count 1;
  sum_duration_misses = add64 agg.sum_duration_misses m.duration_ms;
  min_duration_misses =
      (if lt64 m.duration_ms agg.min_duration_misses
        then m.duration_ms
        else agg.min_duration_misses);
  max_duration_misses =
      (if lt64 agg.max_duration_misses m.duration_ms
        then m.duration_ms
        else agg.max_duration_misses);
}

pub record_duration : CallMetrics → AggregatedMetrics → AggregatedMetrics
unfolding record_hit record_miss
record_duration m agg = if m.cache_hit then record_hit m agg else record_miss m agg

-- projectMetrics.byAPI
abbrev pub ProjectMetrics : Type 0
ProjectMetrics = Map ApiName AggregatedMetrics

-- Collector.projects
abbrev pub Collector : Type 0
Collector = Map Text ProjectMetrics

-- `getOrCreateProjectMetrics`, where the project is stored
pub get_or_create_project_metrics : Text → Collector → ProjectMetrics
get_or_create_project_metrics project_id c = or_else (lookup project_id c) []

-- `Record`
pub record_metrics : Text → ApiName → CallMetrics → Collector → Collector
unfolding record_call record_duration get_or_create_project_metrics
record_metrics project_id api m c =
    let by_api = get_or_create_project_metrics project_id c in
    let agg = or_else (lookup api by_api) new_aggregated_metrics in
    insert project_id (insert api (record_duration m (record_call m agg)) by_api) c

-- `SnapshotAndReset`: the projects that have counters, and the collector with each of them reset
pub snapshot : Collector → Map Text ProjectMetrics
snapshot [] = []
snapshot ((project_id, by_api) ∷ c) =
    if is_empty by_api then snapshot c else (project_id, by_api) ∷ snapshot c

pub reset : Collector → Collector
reset [] = []
reset ((project_id, by_api) ∷ c) = (project_id, []) ∷ reset c

pub snapshot_and_reset : Collector → Map Text ProjectMetrics × Collector
unfolding snapshot reset
snapshot_and_reset c = (snapshot c, reset c)
