-- ===== src/Cache/Lookup/Extended.antt =====
-- An entry of the lookup cache after a value was appended to one: it has all its results still.
use authzcache.Base.{
  ℕ, zero, suc, ◌≡◌, refl, ◌∙◌, ap, subst, true, false, List, [], ◌∷◌, ◌++◌, Option, none, some,
  inl, inr, arith, Text, text_eq, nat_eq, eqb, eq_refl, ltb, get_elem?, set, contains,
  contains-append, Bool-cases, Option-cases, ◌>>=◌,
}
use authzcache.Cache.{Externals, ExternalLaws, ProjectCache, LookupEntry}
use authzcache.Cache.Lookup.{find_entry, get_entry, append_result}

get_elem?-set_self {ℓ} :
    {A : Type ℓ} (xs : List A) (i : ℕ) (a b : A)
    → get_elem? xs i ≡ some a
    → get_elem? (set xs i b) i ≡ some b
get_elem?-set_self [] i a b e = absurd (ground arith)
get_elem?-set_self (x ∷ xs) zero a b e = refl
get_elem?-set_self (x ∷ xs) (suc i) a b e = get_elem?-set_self xs i a b e

get_elem?-set_other {ℓ} :
    {A : Type ℓ} (xs : List A) (i j : ℕ) (b : A)
    → eqb i j ≡ false
    → get_elem? (set xs i b) j ≡ get_elem? xs j
get_elem?-set_other [] i j b h = refl
get_elem?-set_other (x ∷ xs) zero zero b h = absurd (ground arith)
get_elem?-set_other (x ∷ xs) zero (suc j) b h = refl
get_elem?-set_other (x ∷ xs) (suc i) zero b h = refl
get_elem?-set_other (x ∷ xs) (suc i) (suc j) b h = get_elem?-set_other xs i j b (ground arith)

-- An entry with the same expiry that has all the results.
pub record Grown (e e' : LookupEntry) : Type 0 where
  pub same_expiry : e'.expires_at ≡ e.expires_at
  pub all_there : (v : Text) → contains v e.results ≡ true → contains v e'.results ≡ true

pub Grown-refl : (e : LookupEntry) → Grown e e
Grown-refl e = record { same_expiry = refl; all_there = λ v h. h }

pub Grown-trans : (a b c : LookupEntry) → Grown a b → Grown b c → Grown a c
Grown-trans a b c s t = record {
  same_expiry = t.same_expiry ∙ s.same_expiry;
  all_there = λ v h. t.all_there v (s.all_there v h);
}

appended : Text → LookupEntry → LookupEntry
appended v e = record e { results = e.results ++ v ∷ [] }

appended-Grown : (v : Text) (e : LookupEntry) → Grown e (appended v e)
unfolding appended
appended-Grown v e = record {
  same_expiry = refl;
  all_there = λ w h. ground (arith, contains-append w e.results (v ∷ []));
}

appended-contains : (v : Text) (e : LookupEntry) → contains v (appended v e).results ≡ true
unfolding appended
appended-contains v e = ground (arith, contains-append v e.results (v ∷ []), eq_refl v)

module _ {x : Externals} (laws : ExternalLaws x) where
  open laws.lookups use {peek, get_peek, peek_get}

  -- The lookup cache is on and has an entry under the key.
  pub record Listing (k : Text) (pc : ProjectCache x) : Type 0 where
    pub state : x.lookups.State
    pub on : pc.lookup_enabled ≡ true
    pub there : pc.lookup_cache ≡ some state
    pub address : ℕ
    pub entry : LookupEntry
    pub hit : peek state k ≡ some address
    pub at : get_elem? pc.entries address ≡ some entry

  -- what `Get` found is at its address
  pub Coherent : Option (ℕ × LookupEntry) → ProjectCache x → Type 0
  Coherent none pc = Unit
  Coherent (some (address, entry)) pc = get_elem? pc.entries address ≡ some entry

  -- the entry at an address that was found
  entry_at : Option ℕ → ProjectCache x → Option (ℕ × LookupEntry)
  entry_at o pc = do address ← o; entry ← get_elem? pc.entries address; some (address, entry)

  entry_at-Coherent : (o : Option ℕ) (pc : ProjectCache x) → Coherent (entry_at o pc) pc
  unfolding entry_at Coherent
  entry_at-Coherent none pc = tt
  entry_at-Coherent (some a) pc = elim (Option-cases (get_elem? pc.entries a)) [
    | inl e ↦ rw e tt
    | inr (entry, e) ↦ let at : get_elem? pc.entries a ≡ some entry = e in rw (e, Coherent) at
  ]

  pub get_entry-found :
      (k : Text) (pc : ProjectCache x) (l : Listing k pc)
      → (get_entry k pc).0 ≡ some (l.address, l.entry)
  unfolding get_entry find_entry entry_at
  get_entry-found k pc l =
      ap {A = Option x.lookups.State} (λ c. (find_entry k pc c).0) l.there
      ∙ ap {A = Option ℕ} (λ o. entry_at o pc) (get_peek l.state k ∙ l.hit)
      ∙ ap {A = Option LookupEntry} (λ e. do entry ← e; some (l.address, entry)) l.at

  pub find_entry-Coherent :
      (k : Text) (pc : ProjectCache x) (c : Option x.lookups.State)
      → Coherent (find_entry k pc c).0 (find_entry k pc c).1
  unfolding find_entry Coherent entry_at
  find_entry-Coherent k pc none = tt
  find_entry-Coherent k pc (some s) =
      entry_at-Coherent (x.lookups.get s k).0
        (record pc { lookup_cache = some (x.lookups.get s k).1 })

  pub find_entry-Listing :
      (k j : Text) (pc : ProjectCache x) (c : Option x.lookups.State) (l : Listing k pc)
      → pc.lookup_cache ≡ c
      → (l' : Listing k (find_entry j pc c).1) × (l'.entry ≡ l.entry) × (l'.address ≡ l.address)
  unfolding find_entry
  find_entry-Listing k j pc none l e = absurd (ground (arith, l.there))
  find_entry-Listing k j pc (some s) l e =
      let same : s ≡ l.state = ground (arith, l.there) in
      (
        record {
          state = (x.lookups.get s j).1;
          on = l.on;
          there = refl;
          address = l.address;
          entry = l.entry;
          hit = peek_get s j k ∙ ap (λ s. peek s k) same ∙ l.hit;
          at = l.at;
        },
        refl,
        refl,
      )

  -- a listing after an entry was written
  written :
      (k : Text) (pc : ProjectCache x) (entries : List LookupEntry) (e : LookupEntry)
      (l : Listing k pc)
      → get_elem? entries l.address ≡ some e
      → Grown l.entry e
      → (l' : Listing k (record pc { entries = entries })) × Grown l.entry l'.entry
  written k pc entries e l at grown = (
    record {
      state = l.state;
      on = l.on;
      there = l.there;
      address = l.address;
      entry = e;
      hit = l.hit;
      at = at;
    },
    grown,
  )

  set-written :
      (k : Text) (pc : ProjectCache x) (address : ℕ) (entry : LookupEntry) (v : Text)
      (l : Listing k pc)
      → get_elem? pc.entries address ≡ some entry
      → (l' : Listing k (record pc { entries = set pc.entries address (appended v entry) })) × Grown
          l.entry l'.entry
  set-written k pc address entry v l at = elim (Bool-cases (eqb address l.address)) [
    | inl same ↦
        let one : address ≡ l.address = ground arith in
        let entry_same : entry ≡ l.entry = ground (arith, l.at) in
        written k pc _ (appended v entry) l
          (subst
            (λ a. get_elem? (set pc.entries address (appended v entry)) a ≡ some (appended v entry))
            one (get_elem?-set_self pc.entries address entry (appended v entry) at))
          (subst (λ e. Grown e (appended v entry)) entry_same (appended-Grown v entry))
    | inr other ↦
        written k pc _ l.entry l
          (get_elem?-set_other pc.entries address l.address (appended v entry) other ∙ l.at)
          (Grown-refl l.entry)
  ]

  pub append_result-Listing :
      (now : ℕ) (v k : Text) (found : Option (ℕ × LookupEntry)) (pc : ProjectCache x)
      (l : Listing k pc)
      → Coherent found pc
      → (l' : Listing k (append_result now v found pc)) × Grown l.entry l'.entry
  unfolding append_result Coherent appended
  append_result-Listing now v k none pc l c = (l, Grown-refl l.entry)
  append_result-Listing now v k (some (address, entry)) pc l c =
      elim (Bool-cases (ltb now entry.expires_at)) [
        | inl live ↦ elim (Bool-cases (contains v entry.results)) [
          | inl known ↦ rw (live, known) (l, Grown-refl l.entry)
          | inr new ↦ rw (live, new) (set-written k pc address entry v l c)
        ]
        | inr dead ↦ rw dead (l, Grown-refl l.entry)
      ]

  -- the value is there if the entry that was found is the listed one
  pub append_result-adds :
      (now : ℕ) (v k : Text) (pc : ProjectCache x) (l : Listing k pc)
      → ltb now l.entry.expires_at ≡ true
      → (l' : Listing k (append_result now v (some (l.address, l.entry)) pc)) × Grown l.entry
          l'.entry
        × (contains v l'.entry.results ≡ true)
  unfolding append_result appended written
  append_result-adds now v k pc l live = elim (Bool-cases (contains v l.entry.results)) [
    | inl known ↦ rw (live, known) (l, Grown-refl l.entry, known)
    | inr new ↦
        rw (live, new)
          (
            (written k pc _ (appended v l.entry) l
                (get_elem?-set_self pc.entries l.address l.entry (appended v l.entry) l.at)
                (appended-Grown v l.entry)).0,
            appended-Grown v l.entry,
            appended-contains v l.entry,
          )
  ]
