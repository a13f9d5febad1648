-- ===== src/Services/Check/Loop.antt =====
-- The loop of `Check` that merges cached answers with the checks of the SDK.
use mathlib.Core.Path.{ap₂}
use authzcache.Base.{
  ℕ, suc, ◌≡◌, refl, ◌∙◌, ap, List, [], ◌∷◌, map, Option, none, some, inl, inr, arith, nat_eq,
  get_elem?, after, after-next, Option-cases, ◌<◌,
}
use authzcache.Base.Map.{Map, lookup}
use authzcache.Sdk.{Relation, Check}
use authzcache.Cache.Checks.{collect}
use authzcache.Cache.Checks.Gather.{gather, answer}
use authzcache.Services.Check.{merge}

-- One check for each relation and about it: the cached answer where there is one, and the next check
-- of the SDK where there is none. Every check of the SDK is used.
pub data Merged (answer : Relation → Option Check)
    : List Relation → List Check → List Check → Type 0 where
  nil : Merged answer [] [] []
  from_cache :
      {r : Relation} {rs : List Relation} {c : Check} {sdk cs : List Check}
      → answer r ≡ some c
      → c.relation ≡ r
      → Merged answer rs sdk cs
      → Merged answer (r ∷ rs) sdk (c ∷ cs)
  from_sdk :
      {r : Relation} {rs : List Relation} {c : Check} {sdk cs : List Check}
      → answer r ≡ none
      → c.relation ≡ r
      → Merged answer rs sdk cs
      → Merged answer (r ∷ rs) (c ∷ sdk) (c ∷ cs)

module _ (answer : Relation → Option Check) where
  -- from index `i` the map has the answer of each relation
  pub Agrees : ℕ → List Relation → Map ℕ Check → Type 0
  Agrees i [] m = Unit
  Agrees i (r ∷ rs) m = (lookup i m ≡ answer r) × Agrees (suc i) rs m

  Agrees-insert :
      (i j : ℕ) (c : Check) (rs : List Relation) (m : Map ℕ Check)
      → j < i
      → Agrees i rs m
      → Agrees i rs ((j, c) ∷ m)
  unfolding Agrees lookup
  Agrees-insert i j c [] m h a = tt
  Agrees-insert i j c (r ∷ rs) m h (e, a) =
      (ground arith, Agrees-insert (suc i) j c rs m (omega arith) a)

  lookup-gather :
      (i j : ℕ) (rs : List Relation) → j < i → lookup j (gather answer i rs).index_to_check ≡ none
  unfolding lookup gather collect
  lookup-gather i j [] h = refl
  lookup-gather i j (r ∷ rs) h = elim (Option-cases (answer r)) [
    | inl e ↦ rw (e, collect) (lookup-gather (suc i) j rs (omega arith))
    | inr (c, e) ↦ rw (e, collect) (ground (arith, lookup-gather (suc i) j rs (omega arith)))
  ]

  pub gather-Agrees : (i : ℕ) (rs : List Relation) → Agrees i rs (gather answer i rs).index_to_check
  unfolding Agrees gather collect lookup
  gather-Agrees i [] = tt
  gather-Agrees i (r ∷ rs) = elim (Option-cases (answer r)) [
    | inl e ↦ rw (e, collect) (lookup-gather (suc i) i rs (omega arith), gather-Agrees (suc i) rs)
    | inr (c, e) ↦
        rw (e, collect)
          (ground arith, Agrees-insert (suc i) i c rs _ (omega arith) (gather-Agrees (suc i) rs))
  ]

merge-hit :
    (i j : ℕ) (r : Relation) (rs : List Relation) (m : Map ℕ Check) (sdk : List Check) (c : Check)
    (result : List Check)
    → lookup i m ≡ some c
    → merge (suc i) j rs m sdk ≡ some result
    → merge i j (r ∷ rs) m sdk ≡ some (c ∷ result)
unfolding merge
merge-hit i j r rs m sdk c result h e = ground arith

merge-miss :
    (i j : ℕ) (r : Relation) (rs : List Relation) (m : Map ℕ Check) (sdk : List Check) (c : Check)
    (result : List Check)
    → lookup i m ≡ none
    → get_elem? sdk j ≡ some c
    → merge (suc i) (suc j) rs m sdk ≡ some result
    → merge i j (r ∷ rs) m sdk ≡ some (c ∷ result)
unfolding merge
merge-miss i j r rs m sdk c result h at e = ground arith

abbrev pub relations_of : List Check → List Relation
relations_of = map (λ (c : Check). c.relation)

module _ (answer : Relation → Option Check)
    (about : (r : Relation) (c : Check) → answer r ≡ some c → c.relation ≡ r) where
  unchecked-eq :
      (i : ℕ) (r : Relation) (rs : List Relation) (rest : List Check) (o : Option Check)
      → relations_of rest ≡ (gather answer i (r ∷ rs)).unchecked
      → answer r ≡ o
      → relations_of rest ≡ (collect i r o (gather answer (suc i) rs)).unchecked
  unfolding gather
  unchecked-eq i r rs rest o u e =
      u ∙ ap {A = Option Check} (λ o. (collect i r o (gather answer (suc i) rs)).unchecked) e

  -- The loop gives a result, and it is the merge.
  pub merge-Merged :
      (i j : ℕ) (rs : List Relation) (m : Map ℕ Check) (sdk rest : List Check)
      → Agrees answer i rs m
      → after j sdk ≡ rest
      → relations_of rest ≡ (gather answer i rs).unchecked
      → (result : List Check) × (merge i j rs m sdk ≡ some result) × Merged answer rs rest result
  unfolding merge Agrees gather collect
  merge-Merged i j [] m sdk [] a e u = ([], refl, nil)
  merge-Merged i j [] m sdk (c ∷ rest) a e u = absurd (ground arith)
  merge-Merged i j (r ∷ rs) m sdk [] (hit, a) e u = elim (Option-cases (answer r)) [
    | inl miss ↦ absurd (ground (arith, unchecked-eq i r rs [] none u miss))
    | inr (c, found) ↦
        let (result, run, merged) =
          merge-Merged (suc i) j rs m sdk [] a e (unchecked-eq i r rs [] (some c) u found) in
        (
          c ∷ result,
          merge-hit i j r rs m sdk c result (hit ∙ found) run,
          from_cache found (about r c found) merged,
        )
  ]
  merge-Merged i j (r ∷ rs) m sdk (d ∷ rest) (hit, a) e u = elim (Option-cases (answer r)) [
    | inl miss ↦
        let v = unchecked-eq i r rs (d ∷ rest) none u miss in
        let (at, left) = after-next j sdk d rest e in
        let (result, run, merged) =
          merge-Merged (suc i) (suc j) rs m sdk rest a left (ground arith) in
        (
          d ∷ result,
          merge-miss i j r rs m sdk d result (hit ∙ miss) at run,
          from_sdk miss (ground arith) merged,
        )
    | inr (c, found) ↦
        let (result, run, merged) =
          merge-Merged (suc i) j rs m sdk (d ∷ rest) a e
            (unchecked-eq i r rs (d ∷ rest) (some c) u found) in
        (
          c ∷ result,
          merge-hit i j r rs m sdk c result (hit ∙ found) run,
          from_cache found (about r c found) merged,
        )
  ]

-- A merge has one check for each relation, about it and in the order of the request.
pub Merged-in_order :
    (answer : Relation → Option Check) (rs : List Relation) (sdk cs : List Check)
    → Merged answer rs sdk cs
    → relations_of cs ≡ rs
Merged-in_order answer _ _ _ nil = refl
Merged-in_order answer _ _ _ (from_cache e about m) = ap₂ ◌∷◌ about (Merged-in_order answer _ _ _ m)
Merged-in_order answer _ _ _ (from_sdk e about m) = ap₂ ◌∷◌ about (Merged-in_order answer _ _ _ m)

-- With nothing to ask for, the cached checks are the merge.
pub gather-Merged :
    (answer : Relation → Option Check)
    → ((r : Relation) (c : Check) → answer r ≡ some c → c.relation ≡ r)
    → (i : ℕ) (rs : List Relation) → (gather answer i rs).unchecked ≡ []
    → Merged answer rs [] (gather answer i rs).checks
unfolding gather collect
gather-Merged answer about i [] e = nil
gather-Merged answer about i (r ∷ rs) e = elim (Option-cases (answer r)) [
  | inl miss ↦ absurd (ground arith)
  | inr (c, found) ↦
      rw (found, collect)
        (from_cache found (about r c found) (gather-Merged answer about (suc i) rs (ground arith)))
]
