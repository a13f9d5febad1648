-- ===== src/Metrics/Reporter/Bounds.antt =====
-- The bounds in a payload: the least and the greatest duration over all calls, hits and misses.
use authzcache.Base.{
  ℕ, ◌≤◌, ◌<◌, ◌≡◌, refl, sym, ◌∙◌, ap, Bool, List, [], ◌∷◌, arith, ltb, eqb, inl, inr, Bool-cases,
  if◌then◌else◌,
}
use authzcache.Metrics.{half, max_int64, ApiName, CallMetrics, AggregatedMetrics}
use authzcache.Metrics.Totals.{total, least, greatest, every, is_hit, is_miss, one}
use authzcache.Metrics.Tally.{recorded, IsTally, InRange, recorded-IsTally}
use authzcache.Metrics.Reporter.{
  min64, max64, overall_min, build_payload, new_payload, with_totals, with_hits, with_misses,
}

max64_lem : (a b : ℕ) → a < half → b < half → max64 a b ≡ (if ltb a b then b else a)
unfolding max64
max64_lem a b h k = ground arith

greatest_split :
    (ms : List CallMetrics)
    → greatest every ms ≡ (
        if ltb (greatest is_hit ms) (greatest is_miss ms)
        then greatest is_miss ms
        else greatest is_hit ms)
unfolding greatest
greatest_split [] = refl
greatest_split (m ∷ ms) = elim (Bool-cases m.cache_hit) [
  | inl h ↦ ground (arith, greatest_split ms)
  | inr h ↦ ground (arith, greatest_split ms)
]

least_split :
    (ms : List CallMetrics)
    → least every ms
      ≡ (if ltb (least is_miss ms) (least is_hit ms) then least is_miss ms else least is_hit ms)
unfolding least
least_split [] = refl
least_split (m ∷ ms) = elim (Bool-cases m.cache_hit) [
  | inl h ↦ ground (arith, least_split ms)
  | inr h ↦ ground (arith, least_split ms)
]

-- Without calls of a kind, the least duration of that kind is the largest number.
least_of_none :
    (p : CallMetrics → Bool) (ms : List CallMetrics) → total p one ms ≡ 0 → least p ms ≡ max_int64
unfolding least total
least_of_none p [] e = refl
least_of_none p (m ∷ ms) e = elim (Bool-cases (p m)) [
  | inl h ↦ absurd (ground arith)
  | inr h ↦ ground (arith, least_of_none p ms)
]

least_le : (p : CallMetrics → Bool) (ms : List CallMetrics) → least p ms ≤ max_int64
unfolding least
least_le p [] = omega arith
least_le p (m ∷ ms) = ground (arith, least_le p ms)

greatest_le :
    (p : CallMetrics → Bool) (ms : List CallMetrics)
    → greatest p ms ≤ total every (λ m. m.duration_ms) ms
unfolding greatest total
greatest_le p [] = omega arith
greatest_le p (m ∷ ms) = ground (arith, greatest_le p ms)

min64_lem : (a b : ℕ) → a ≤ max_int64 → b ≤ max_int64 → min64 a b ≡ (if ltb b a then b else a)
unfolding min64
min64_lem a b h k = ground arith

guarded :
    (p : CallMetrics → Bool) (ms : List CallMetrics)
    → (if eqb (total p one ms) 0 then max_int64 else least p ms) ≡ least p ms
guarded p ms = ground (arith, least_of_none p ms)

overall_min-least :
    (ms : List CallMetrics) (agg : AggregatedMetrics)
    → IsTally ms agg
    → overall_min agg ≡ (if eqb (least every ms) max_int64 then 0 else least every ms)
unfolding overall_min
overall_min-least ms agg t = rw (
  t.hit_count,
  t.miss_count,
  t.min_duration_hits,
  t.min_duration_misses,
  guarded is_hit ms,
  guarded is_miss ms,
  min64_lem (least is_hit ms) (least is_miss ms) (least_le is_hit ms) (least_le is_miss ms),
  ← least_split ms,
)

-- The averages do not change the counts.
build_payload-counts :
    (api : ApiName) (agg : AggregatedMetrics)
    → ((build_payload api agg).total_calls ≡ agg.total_calls)
      × ((build_payload api agg).hit_count ≡ agg.hit_count)
      × ((build_payload api agg).miss_count ≡ agg.miss_count)
unfolding build_payload new_payload with_totals with_hits with_misses
build_payload-counts api agg = (ground arith, ground arith, ground arith)

-- The payload for the recorded calls of an API has the number of calls, of hits and of misses, and the
-- least and the greatest duration over all of them (the least is zero where it is the largest int64,
-- as without calls), as long as no sum leaves the int64 range.
pub build_payload-bounds :
    (api : ApiName) (ms : List CallMetrics)
    → InRange ms
    → let p = build_payload api (recorded ms) in
      (p.total_calls ≡ total every one ms)
      × (p.hit_count ≡ total is_hit one ms)
      × (p.miss_count ≡ total is_miss one ms)
      × (p.min_duration ≡ (if eqb (least every ms) max_int64 then 0 else least every ms))
      × (p.max_duration ≡ greatest every ms)
unfolding build_payload
build_payload-bounds api ms r =
    let t = recorded-IsTally ms r in
    let (calls, hits, misses) = build_payload-counts api (recorded ms) in
    (
      calls ∙ t.total_calls,
      hits ∙ t.hit_count,
      misses ∙ t.miss_count,
      overall_min-least ms (recorded ms) t,
      ap (λ h. max64 h (recorded ms).max_duration_misses) t.max_duration_hits
          ∙ ap (λ m. max64 (greatest is_hit ms) m) t.max_duration_misses
          ∙ max64_lem (greatest is_hit ms) (greatest is_miss ms)
              (omega (arith, greatest_le is_hit ms, r.durations))
              (omega (arith, greatest_le is_miss ms, r.durations))
          ∙ sym (greatest_split ms),
    )
