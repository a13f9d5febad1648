-- ===== src/Metrics/Tally.antt =====
-- The counters of one API against the list of the recorded calls.
use authzcache.Base.{
  ℕ, ◌<◌, Bool, true, false, not, List, [], ◌∷◌, arith, ◌≡◌, ◌∙◌, ap, subst, sym, refl,
  if◌then◌else◌, inl, inr, Bool-cases,
}
use authzcache.Metrics.{
  CallMetrics, AggregatedMetrics, new_aggregated_metrics, record_call, record_hit, record_miss,
  record_duration, half, add64, lt64,
}
use authzcache.Metrics.Totals.{
  total, least, greatest, every, is_hit, is_miss, one, add64_lem, lt64_lem, total_le, least-lt,
  greatest-le, total_cons, total_skip, least_skip, greatest_skip,
}

-- The counters after the calls of a list, the newest call first.
unfoldable pub recorded : List CallMetrics → AggregatedMetrics
recorded [] = new_aggregated_metrics
recorded (m ∷ ms) = record_duration m (record_call m (recorded ms))

-- The counters are what the calls add up to.
pub record IsTally (ms : List CallMetrics) (agg : AggregatedMetrics) : Type 0 where
  pub total_calls : agg.total_calls ≡ total every one ms
  pub hit_count : agg.hit_count ≡ total is_hit one ms
  pub miss_count : agg.miss_count ≡ total is_miss one ms
  pub sum_candidates : agg.sum_candidates ≡ total every (λ m. m.candidates_count) ms
  pub sum_filtered : agg.sum_filtered ≡ total every (λ m. m.filtered_count) ms
  pub sum_result_size : agg.sum_result_size ≡ total every (λ m. m.result_size) ms
  pub sum_duration_hits : agg.sum_duration_hits ≡ total is_hit (λ m. m.duration_ms) ms
  pub sum_duration_misses : agg.sum_duration_misses ≡ total is_miss (λ m. m.duration_ms) ms
  pub min_duration_hits : agg.min_duration_hits ≡ least is_hit ms
  pub max_duration_hits : agg.max_duration_hits ≡ greatest is_hit ms
  pub min_duration_misses : agg.min_duration_misses ≡ least is_miss ms
  pub max_duration_misses : agg.max_duration_misses ≡ greatest is_miss ms

-- No sum leaves the int64 range.
pub record InRange (ms : List CallMetrics) : Type 0 where
  pub calls : total every one ms < half
  pub candidates : total every (λ m. m.candidates_count) ms < half
  pub filtered : total every (λ m. m.filtered_count) ms < half
  pub results : total every (λ m. m.result_size) ms < half
  pub durations : total every (λ m. m.duration_ms) ms < half

InRange-tail : (m : CallMetrics) (ms : List CallMetrics) → InRange (m ∷ ms) → InRange ms
unfolding total
InRange-tail m ms r = record {
  calls = omega (arith, r.calls);
  candidates = omega (arith, r.candidates);
  filtered = omega (arith, r.filtered);
  results = omega (arith, r.results);
  durations = omega (arith, r.durations);
}

empty-IsTally : IsTally [] new_aggregated_metrics
unfolding new_aggregated_metrics total least greatest
empty-IsTally = record {
  total_calls = refl;
  hit_count = refl;
  miss_count = refl;
  sum_candidates = refl;
  sum_filtered = refl;
  sum_result_size = refl;
  sum_duration_hits = refl;
  sum_duration_misses = refl;
  min_duration_hits = refl;
  max_duration_hits = refl;
  min_duration_misses = refl;
  max_duration_misses = refl;
}

module _ (m : CallMetrics) (ms : List CallMetrics) (agg : AggregatedMetrics) (r : InRange (m ∷ ms))
    (t : IsTally ms agg) where
  sum_step :
      (p : CallMetrics → Bool) (f : CallMetrics → ℕ) (s : ℕ)
      → total every f (m ∷ ms) < half
      → s ≡ total p f ms
      → p m ≡ true
      → add64 s (f m) ≡ total p f (m ∷ ms)
  unfolding total
  sum_step p f s h e y = ground (arith, add64_lem s (f m), total_le p f ms)

  duration_lt : m.duration_ms < half
  duration_lt = omega (arith, r.durations, total_cons every (λ m. m.duration_ms) m ms)

  rest_lt : total every (λ m. m.duration_ms) ms < half
  rest_lt = (InRange-tail m ms r).durations

  min_step :
      (p : CallMetrics → Bool) (s : ℕ)
      → p m ≡ true
      → s ≡ least p ms
      → (if lt64 m.duration_ms s then m.duration_ms else s) ≡ least p (m ∷ ms)
  unfolding least
  min_step p s y e = ground (arith, lt64_lem m.duration_ms s duration_lt, least-lt p ms)

  max_step :
      (p : CallMetrics → Bool) (s : ℕ)
      → p m ≡ true
      → s ≡ greatest p ms
      → (if lt64 s m.duration_ms then m.duration_ms else s) ≡ greatest p (m ∷ ms)
  unfolding greatest
  max_step p s y e =
      ground (arith, lt64_lem s m.duration_ms, duration_lt, greatest-le p ms, rest_lt)

  hit_step : m.cache_hit ≡ true → IsTally (m ∷ ms) (record_hit m (record_call m agg))
  unfolding record_hit record_call
  hit_step y = record {
    total_calls = sum_step every one agg.total_calls r.calls t.total_calls refl;
    hit_count = sum_step is_hit one agg.hit_count r.calls t.hit_count y;
    miss_count = t.miss_count ∙ total_skip is_miss one m ms n;
    sum_candidates =
        sum_step every (λ m. m.candidates_count) agg.sum_candidates r.candidates t.sum_candidates
          refl;
    sum_filtered =
        sum_step every (λ m. m.filtered_count) agg.sum_filtered r.filtered t.sum_filtered refl;
    sum_result_size =
        sum_step every (λ m. m.result_size) agg.sum_result_size r.results t.sum_result_size refl;
    sum_duration_hits =
        sum_step is_hit (λ m. m.duration_ms) agg.sum_duration_hits r.durations t.sum_duration_hits
          y;
    sum_duration_misses = t.sum_duration_misses ∙ total_skip is_miss (λ m. m.duration_ms) m ms n;
    min_duration_hits = min_step is_hit agg.min_duration_hits y t.min_duration_hits;
    max_duration_hits = max_step is_hit agg.max_duration_hits y t.max_duration_hits;
    min_duration_misses = t.min_duration_misses ∙ least_skip is_miss m ms n;
    max_duration_misses = t.max_duration_misses ∙ greatest_skip is_miss m ms n;
  }
    where
      n : is_miss m ≡ false
      n = ap not y

  miss_step : m.cache_hit ≡ false → IsTally (m ∷ ms) (record_miss m (record_call m agg))
  unfolding record_miss record_call
  miss_step n = record {
    total_calls = sum_step every one agg.total_calls r.calls t.total_calls refl;
    hit_count = t.hit_count ∙ total_skip is_hit one m ms n;
    miss_count = sum_step is_miss one agg.miss_count r.calls t.miss_count y;
    sum_candidates =
        sum_step every (λ m. m.candidates_count) agg.sum_candidates r.candidates t.sum_candidates
          refl;
    sum_filtered =
        sum_step every (λ m. m.filtered_count) agg.sum_filtered r.filtered t.sum_filtered refl;
    sum_result_size =
        sum_step every (λ m. m.result_size) agg.sum_result_size r.results t.sum_result_size refl;
    sum_duration_hits = t.sum_duration_hits ∙ total_skip is_hit (λ m. m.duration_ms) m ms n;
    sum_duration_misses =
        sum_step is_miss (λ m. m.duration_ms) agg.sum_duration_misses r.durations
          t.sum_duration_misses y;
    min_duration_hits = t.min_duration_hits ∙ least_skip is_hit m ms n;
    max_duration_hits = t.max_duration_hits ∙ greatest_skip is_hit m ms n;
    min_duration_misses = min_step is_miss agg.min_duration_misses y t.min_duration_misses;
    max_duration_misses = max_step is_miss agg.max_duration_misses y t.max_duration_misses;
  }
    where
      y : is_miss m ≡ true
      y = ap not n

-- The counters of an API are what the recorded calls add up to, hits and misses apart: the number of
-- calls, the sums, and the least and greatest duration, as long as no sum leaves the int64 range.
pub recorded-IsTally : (ms : List CallMetrics) → InRange ms → IsTally ms (recorded ms)
unfolding recorded record_duration
recorded-IsTally [] r = empty-IsTally
recorded-IsTally (m ∷ ms) r =
    let t = recorded-IsTally ms (InRange-tail m ms r) in
    let agg = record_call m (recorded ms) in
    elim (Bool-cases m.cache_hit) [
      | inl y ↦
          subst (λ b. IsTally (m ∷ ms) (if b then record_hit m agg else record_miss m agg)) (sym y)
            (hit_step m ms (recorded ms) r t y)
      | inr n ↦
          subst (λ b. IsTally (m ∷ ms) (if b then record_hit m agg else record_miss m agg)) (sym n)
            (miss_step m ms (recorded ms) r t n)
    ]
