-- ===== src/Metrics/Reporter/Complete.antt =====
-- A report posts every counter that has a call, once.
use mathlib.Core.Path.{ap₂}
use authzcache.Base.{
  ◌≡◌, refl, sym, ◌∙◌, ap, subst, false, List, [], ◌∷◌, none, some, ◌⊎◌, inl, inr, arith, Text,
  text_eq, ◌==◌, eq_iff, eqb, is_empty, Bool-cases, Option-cases,
}
use authzcache.Base.Map.{Map, lookup}
use authzcache.Metrics.{
  ApiName, api_eq, AggregatedMetrics, ProjectMetrics, Collector, lt64, snapshot, snapshot_and_reset,
}
use authzcache.Metrics.Snapshot.{counters, Unique, snapshot_absent, snapshot_and_reset_lem}
use authzcache.Metrics.Reporter.{
  Payload, new_payload, with_totals, with_hits, with_misses, build_payload, payloads, posts, report,
}

-- no payload is about the API
abbrev pub NoneAbout : ApiName → List Payload → Type 0
NoneAbout api [] = Unit {0}
NoneAbout api (q ∷ ps) = ((q.api == api) ≡ false) × NoneAbout api ps

-- a payload is there, and it is the only one about its API
abbrev pub PostedOnce : Payload → List Payload → Type 0
PostedOnce p [] = ⊥
PostedOnce p (q ∷ ps) =
    ((q ≡ p) × NoneAbout p.api ps) ⊎ (((q.api == p.api) ≡ false) × PostedOnce p ps)

-- a post is there, and it is the only one of its project
abbrev pub SentOnce : Text → List Payload → List (Text × List Payload) → Type 0
SentOnce q ps [] = ⊥
SentOnce q ps ((p, out) ∷ rest) =
    ((p ≡ q) × (out ≡ ps) × (lookup q rest ≡ none)) ⊎ (((p == q) ≡ false) × SentOnce q ps rest)

-- each API is stored once for a project, as in a Go map
abbrev pub ApisOnce : ProjectMetrics → Type 0
ApisOnce [] = Unit {0}
ApisOnce ((api, agg) ∷ by_api) = (lookup api by_api ≡ none) × ApisOnce by_api

-- and so for every project
abbrev pub EachOnce : Collector → Type 0
EachOnce [] = Unit {0}
EachOnce ((p, by_api) ∷ c) = ApisOnce by_api × EachOnce c

with_totals-api : (agg : AggregatedMetrics) (p : Payload) → (with_totals agg p).api ≡ p.api
unfolding with_totals
with_totals-api agg p = elim (Bool-cases (lt64 0 agg.total_calls)) [
  | inl some_left ↦ rw some_left
  | inr empty ↦ rw empty
]

with_hits-api : (agg : AggregatedMetrics) (p : Payload) → (with_hits agg p).api ≡ p.api
unfolding with_hits
with_hits-api agg p = elim (Bool-cases (lt64 0 agg.hit_count)) [
  | inl some_left ↦ rw some_left
  | inr empty ↦ rw empty
]

with_misses-api : (agg : AggregatedMetrics) (p : Payload) → (with_misses agg p).api ≡ p.api
unfolding with_misses
with_misses-api agg p = elim (Bool-cases (lt64 0 agg.miss_count)) [
  | inl some_left ↦ rw some_left
  | inr empty ↦ rw empty
]

build_payload-api : (api : ApiName) (agg : AggregatedMetrics) → (build_payload api agg).api ≡ api
unfolding build_payload new_payload
build_payload-api api agg =
    with_misses-api agg _ ∙ with_hits-api agg _ ∙ with_totals-api agg (new_payload api agg)

payloads-NoneAbout :
    (api : ApiName) (by_api : ProjectMetrics)
    → lookup api by_api ≡ none
    → NoneAbout api (payloads by_api)
unfolding payloads lookup
payloads-NoneAbout api [] e = tt
payloads-NoneAbout api ((b, found) ∷ by_api) e = elim (Bool-cases (b == api)) [
  | inl same ↦ absurd (ground (arith, same))
  | inr other ↦
      let later = payloads-NoneAbout api by_api (ground (arith, other)) in
      elim (Bool-cases (eqb found.total_calls 0)) [
        | inl idle ↦ rw idle later
        | inr called ↦
            rw called
              (subst (λ k. (k == api) ≡ false) (sym (build_payload-api b found)) other, later)
      ]
]

payloads-PostedOnce :
    (api : ApiName) (agg : AggregatedMetrics) (by_api : ProjectMetrics)
    → ApisOnce by_api
    → lookup api by_api ≡ some agg
    → eqb agg.total_calls 0 ≡ false
    → PostedOnce (build_payload api agg) (payloads by_api)
unfolding payloads lookup
payloads-PostedOnce api agg [] u e h = absurd (ground arith)
payloads-PostedOnce api agg ((b, found) ∷ by_api) (absent, u) e h = elim (Bool-cases (b == api)) [
  | inl same ↦
      let one : b ≡ api = (eq_iff b api).0 same in
      let it : found ≡ agg = ground (arith, same) in
      let called : eqb found.total_calls 0 ≡ false =
        subst (λ f. eqb f.total_calls 0 ≡ false) (sym it) h in
      rw called (
        inl (
          ap₂ build_payload one it,
          subst (λ k. NoneAbout k (payloads by_api)) (one ∙ sym (build_payload-api api agg))
              (payloads-NoneAbout b by_api absent),
        ))
  | inr other ↦
      let later = payloads-PostedOnce api agg by_api u (ground (arith, other)) h in
      let apart : ((build_payload b found).api == (build_payload api agg).api) ≡ false =
        ap₂ ◌==◌ (build_payload-api b found) (build_payload-api api agg) ∙ other in
      elim (Bool-cases (eqb found.total_calls 0)) [
        | inl idle ↦ rw idle later
        | inr called ↦ rw called (inr (apart, later))
      ]
]

posts-absent :
    (q : Text) (taken : Map Text ProjectMetrics)
    → lookup q taken ≡ none
    → lookup q (posts taken) ≡ none
unfolding posts lookup
posts-absent q [] e = refl
posts-absent q ((p, found) ∷ taken) e = elim (Bool-cases (p == q)) [
  | inl same ↦ absurd (ground (arith, same))
  | inr other ↦
      let later = posts-absent q taken (ground (arith, other)) in
      elim (Bool-cases (is_empty (payloads found))) [
        | inl empty ↦ rw empty later
        | inr full ↦ rw (full, other) later
      ]
]

posts-SentOnce :
    (q : Text) (by_api : ProjectMetrics) (taken : Map Text ProjectMetrics)
    → Unique taken
    → lookup q taken ≡ some by_api
    → is_empty (payloads by_api) ≡ false
    → SentOnce q (payloads by_api) (posts taken)
unfolding posts lookup
posts-SentOnce q by_api [] u e h = absurd (ground arith)
posts-SentOnce q by_api ((p, found) ∷ taken) (absent, u) e h = elim (Bool-cases (p == q)) [
  | inl same ↦
      let one : p ≡ q = (eq_iff p q).0 same in
      let it : found ≡ by_api = ground (arith, same) in
      let some_left : is_empty (payloads found) ≡ false =
        subst (λ f. is_empty (payloads f) ≡ false) (sym it) h in
      rw some_left (
        inl (
          one,
          ap payloads it,
          posts-absent q taken (subst (λ k. lookup k taken ≡ none) one absent),
        ))
  | inr other ↦
      let later = posts-SentOnce q by_api taken u (ground (arith, other)) h in
      elim (Bool-cases (is_empty (payloads found))) [
        | inl empty ↦ rw empty later
        | inr full ↦ rw full (inr (other, later))
      ]
]

not_empty : (p : Payload) (ps : List Payload) → PostedOnce p ps → is_empty ps ≡ false
not_empty p [] h = absurd h
not_empty p (q ∷ ps) h = refl

-- a snapshot keeps each project and each API stored once
snapshot-Unique : (c : Collector) → Unique c → Unique (snapshot c)
unfolding snapshot
snapshot-Unique [] u = tt
snapshot-Unique ((p, by_api) ∷ c) (absent, u) = elim (Bool-cases (is_empty by_api)) [
  | inl empty ↦ rw empty (snapshot-Unique c u)
  | inr full ↦ rw full (snapshot_absent p c absent, snapshot-Unique c u)
]

snapshot-ApisOnce :
    (q : Text) (by_api : ProjectMetrics) (c : Collector)
    → EachOnce c
    → lookup q (snapshot c) ≡ some by_api
    → ApisOnce by_api
unfolding snapshot lookup
snapshot-ApisOnce q by_api [] u e = absurd (ground arith)
snapshot-ApisOnce q by_api ((p, found) ∷ c) (once, u) e = elim (Bool-cases (is_empty found)) [
  | inl empty ↦ snapshot-ApisOnce q by_api c u (ground (arith, empty))
  | inr full ↦ elim (Bool-cases (p == q)) [
    | inl same ↦ let it : found ≡ by_api = ground (arith, full, same) in subst ApisOnce it once
    | inr other ↦ snapshot-ApisOnce q by_api c u (ground (arith, full, other))
  ]
]

taken_from :
    (q : Text) (api : ApiName) (agg : AggregatedMetrics) (taken : Map Text ProjectMetrics)
    → counters q api taken ≡ some agg
    → (by_api : ProjectMetrics) × (lookup q taken ≡ some by_api) × (lookup api by_api ≡ some agg)
unfolding counters lookup
taken_from q api agg taken e = elim (Option-cases (lookup q taken)) [
  | inl absent ↦ absurd (ground arith)
  | inr (by_api, there) ↦ (by_api, there, ground arith)
]

-- In a collector that stores each project and each API of it once, as its Go maps do, a report posts
-- for each API of each project that has a call the payload of its counters, in the only post of that
-- project, where it is the only payload about that API; and it leaves no counters, so that the next
-- report does not post them again.
pub report_complete :
    (q : Text) (api : ApiName) (agg : AggregatedMetrics) (c : Collector)
    → Unique c
    → EachOnce c
    → counters q api c ≡ some agg
    → eqb agg.total_calls 0 ≡ false
    → ((ps : List Payload) × SentOnce q ps (report c).0 × PostedOnce (build_payload api agg) ps)
      × (counters q api (report c).1 ≡ none)
unfolding report snapshot_and_reset
report_complete q api agg c u each e h =
    let (same, left) = snapshot_and_reset_lem q api c u in
    let (by_api, there, at) = taken_from q api agg (snapshot c) (same ∙ e) in
    let posted =
      payloads-PostedOnce api agg by_api (snapshot-ApisOnce q by_api c each there) at h in
    (
      (
        payloads by_api,
        posts-SentOnce q by_api (snapshot c) (snapshot-Unique c u) there
            (not_empty _ (payloads by_api) posted),
        posted,
      ),
      left,
    )
