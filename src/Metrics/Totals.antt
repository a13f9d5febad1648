-- ===== src/Metrics/Totals.antt =====
-- Sums and bounds over the recorded calls, as numbers without bound.
use authzcache.Base.{
  ℕ, ◌+◌, ◌≤◌, ◌<◌, Bool, true, false, not, List, [], ◌∷◌, arith, ltb, ◌≡◌, refl, if◌then◌else◌,
}
use authzcache.Metrics.{CallMetrics, half, max_int64, add64, lt64}

-- The sum of a measure over the calls that pass a test, as a number without bound.
unfoldable pub total : (CallMetrics → Bool) → (CallMetrics → ℕ) → List CallMetrics → ℕ
total p f [] = 0
total p f (m ∷ ms) = (if p m then f m else 0) + total p f ms

-- The least and the greatest duration of the calls that pass a test.
unfoldable pub least : (CallMetrics → Bool) → List CallMetrics → ℕ
least p [] = max_int64
least p (m ∷ ms) =
    if p m
    then (if ltb m.duration_ms (least p ms) then m.duration_ms else least p ms)
    else least p ms

unfoldable pub greatest : (CallMetrics → Bool) → List CallMetrics → ℕ
greatest p [] = 0
greatest p (m ∷ ms) =
    if p m
    then (if ltb (greatest p ms) m.duration_ms then m.duration_ms else greatest p ms)
    else greatest p ms

abbrev pub every : CallMetrics → Bool
every m = true

abbrev pub is_hit : CallMetrics → Bool
is_hit m = m.cache_hit

abbrev pub is_miss : CallMetrics → Bool
is_miss m = not m.cache_hit

abbrev pub one : CallMetrics → ℕ
one m = 1

pub add64_lem : (a b : ℕ) → a + b < half → add64 a b ≡ a + b
add64_lem a b h = omega arith

pub lt64_lem : (a b : ℕ) → a < half → b < half → lt64 a b ≡ ltb a b
lt64_lem a b h k = ground arith

pub total_le :
    (p : CallMetrics → Bool) (f : CallMetrics → ℕ) (ms : List CallMetrics)
    → total p f ms ≤ total every f ms
unfolding total
total_le p f [] = omega arith
total_le p f (m ∷ ms) = ground (arith, total_le p f ms)

pub least-lt : (p : CallMetrics → Bool) (ms : List CallMetrics) → least p ms < half
unfolding least
least-lt p [] = omega arith
least-lt p (m ∷ ms) = ground (arith, least-lt p ms)

pub greatest-le :
    (p : CallMetrics → Bool) (ms : List CallMetrics)
    → greatest p ms ≤ total every (λ m. m.duration_ms) ms
unfolding greatest total
greatest-le p [] = omega arith
greatest-le p (m ∷ ms) = ground (arith, greatest-le p ms)

-- What the sums of a longer list give, for a call that is a hit or a miss.
pub total_cons :
    (p : CallMetrics → Bool) (f : CallMetrics → ℕ) (m : CallMetrics) (ms : List CallMetrics)
    → total p f (m ∷ ms) ≡ (if p m then f m else 0) + total p f ms
unfolding total
total_cons p f m ms = refl

pub total_skip :
    (p : CallMetrics → Bool) (f : CallMetrics → ℕ) (m : CallMetrics) (ms : List CallMetrics)
    → p m ≡ false
    → total p f ms ≡ total p f (m ∷ ms)
unfolding total
total_skip p f m ms e = ground arith

pub least_skip :
    (p : CallMetrics → Bool) (m : CallMetrics) (ms : List CallMetrics)
    → p m ≡ false
    → least p ms ≡ least p (m ∷ ms)
unfolding least
least_skip p m ms e = ground arith

pub greatest_skip :
    (p : CallMetrics → Bool) (m : CallMetrics) (ms : List CallMetrics)
    → p m ≡ false
    → greatest p ms ≡ greatest p (m ∷ ms)
unfolding greatest
greatest_skip p m ms e = ground arith
