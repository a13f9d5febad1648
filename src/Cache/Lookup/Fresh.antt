-- ===== src/Cache/Lookup/Fresh.antt =====
-- What the lookup cache returns after a result was stored.
use authzcache.Base.{
  ℕ, ◌+◌, ◌≡◌, refl, ◌∙◌, ap, Bool, true, false, List, [], ◌∷◌, ◌++◌, map, Option, none, some,
  arith, Text, text_eq, ltb, length, All, get_elem?, if◌then◌else◌, ◌>>=◌,
}
use authzcache.Base.Int.{pos, ltb_ℤ}
use authzcache.Sdk.{AuthzRelation}
use authzcache.Cache.{Externals, ExternalLaws, ProjectCache, LookupEntry}
use authzcache.Cache.Lookup.{
  is_disabled, fresh_results, find_entry, get_entry, store_address, get_results, add_entry,
  set_results, get_who_can_access_cached, set_who_can_access_cached,
  get_what_can_target_access_cached, set_what_can_target_access_cached, who_can_access_key,
  what_can_target_access_key, format_results, parse_results, non_empty,
}
use authzcache.Cache.Lookup.RoundTrip.{IsPlain, restored, parse-format}

get_elem?-append {ℓ} :
    {A : Type ℓ} (xs : List A) (a : A) → get_elem? (xs ++ a ∷ []) (length xs) ≡ some a
get_elem?-append [] a = refl
get_elem?-append (x ∷ xs) a = get_elem?-append xs a

if-false {ℓ} : {A : Type ℓ} (b : Bool) (s t : A) → b ≡ false → (if b then s else t) ≡ t
if-false true s t h = absurd (ground arith)
if-false false s t h = refl

kept :
    (target : Text) (r : AuthzRelation) (rs : List AuthzRelation) (late : Bool)
    → All IsPlain (r ∷ rs)
    → ((if late then none else some (format_results (r ∷ rs)))
        >>= (λ results. non_empty (parse_results target results)))
      ≡ (if late then none else some (map (restored target) (r ∷ rs)))
unfolding non_empty
kept target r rs true plain = refl
kept target r rs false plain = ap non_empty (parse-format target (r ∷ rs) plain)

module _ {x : Externals} (laws : ExternalLaws x) where
  -- The lookup cache is on, and the result is not too large for it.
  pub record Fits (results : List Text) (pc : ProjectCache x) : Type 0 where
    pub state : x.lookups.State
    pub on : pc.lookup_enabled ≡ true
    pub there : pc.lookup_cache ≡ some state
    pub small : ltb_ℤ pc.lookup_max_result (pos (length results)) ≡ false

  pub on-enabled :
      (pc : ProjectCache x) (s : x.lookups.State)
      → pc.lookup_enabled ≡ true
      → pc.lookup_cache ≡ some s
      → is_disabled pc ≡ false
  on-enabled pc s on there = ground (arith, on, there)

  set_results-Fits :
      (now : ℕ) (k : Text) (results : List Text) (pc : ProjectCache x) (f : Fits results pc)
      → set_results now k results pc ≡ record (add_entry now k results pc) {
        lookup_cache = some (x.lookups.add f.state k (length pc.entries)).0;
      }
  unfolding set_results add_entry store_address
  set_results-Fits now k results pc f =
      if-false _ pc _ (on-enabled pc f.state f.on f.there)
      ∙ if-false _ pc _ f.small
      ∙ ap {A = Option x.lookups.State} {B = ProjectCache x}
          (λ c. record (add_entry now k results pc) {
            lookup_cache = store_address x.lookups k (length pc.entries) c;
          })
          f.there

  pub get_results-found :
      (later : ℕ) (k : Text) (pc : ProjectCache x) (s : x.lookups.State) (a : ℕ)
      (entry : LookupEntry)
      → pc.lookup_enabled ≡ true
      → pc.lookup_cache ≡ some s
      → laws.lookups.peek s k ≡ some a
      → get_elem? pc.entries a ≡ some entry
      → (get_results later k pc).0
        ≡ (if ltb entry.expires_at later then none else some entry.results)
  unfolding get_results get_entry find_entry fresh_results
  get_results-found later k pc s a entry on there hit at =
      ap {A = Option (List Text) × ProjectCache x} (λ r. r.0)
        (if-false _ (none, pc) _ (on-enabled pc s on there))
      ∙ ap {A = Option x.lookups.State} (λ c. fresh_results later (find_entry k pc c).0) there
      ∙ ap {A = Option ℕ}
          (λ g.
            fresh_results later
              (do address ← g; entry ← get_elem? pc.entries address; some (address, entry)))
          (laws.lookups.get_peek s k ∙ hit)
      ∙ ap {A = Option LookupEntry} (λ e. fresh_results later (do entry ← e; some (a, entry))) at

  -- A stored result is returned until its time to live has passed, and not afterwards.
  pub get-set_results :
      (now later : ℕ) (k : Text) (results : List Text) (pc : ProjectCache x)
      → Fits results pc
      → (get_results later k (set_results now k results pc)).0
        ≡ (if ltb (now + pc.lookup_ttl) later then none else some results)
  unfolding add_entry
  get-set_results now later k results pc f =
      ap (λ s. (get_results later k s).0) (set_results-Fits now k results pc f)
      ∙ get_results-found later k
          (record (add_entry now k results pc) {
            lookup_cache = some (x.lookups.add f.state k (length pc.entries)).0;
          })
          (x.lookups.add f.state k (length pc.entries)).0 (length pc.entries) _ f.on refl
          (laws.lookups.peek_add_self f.state k (length pc.entries)) (get_elem?-append pc.entries _)

  pub get-set_cached :
      (now later : ℕ) (resource relation_definition namespace target : Text) (targets : List Text)
      (r : AuthzRelation) (rs : List AuthzRelation) (pc : ProjectCache x)
      → Fits targets pc
      → Fits (format_results (r ∷ rs)) pc
      → All IsPlain (r ∷ rs)
      → ((get_who_can_access_cached later resource relation_definition namespace
            (set_who_can_access_cached now resource relation_definition namespace targets pc)).0
          ≡ (if ltb (now + pc.lookup_ttl) later then none else some targets))
        × ((get_what_can_target_access_cached later target
              (set_what_can_target_access_cached now target (r ∷ rs) pc)).0
            ≡ (if ltb (now + pc.lookup_ttl) later
                then none
                else some (map (restored target) (r ∷ rs))))
  unfolding get_who_can_access_cached set_who_can_access_cached get_what_can_target_access_cached
      set_what_can_target_access_cached
  get-set_cached now later resource relation_definition namespace target targets r rs pc f g plain =
      (
        get-set_results now later (who_can_access_key resource relation_definition namespace)
            targets pc f,
        ap (λ o. o >>= (λ results. non_empty (parse_results target results)))
              (get-set_results now later (what_can_target_access_key target)
                (format_results (r ∷ rs)) pc g)
            ∙ kept target r rs (ltb (now + pc.lookup_ttl) later) plain,
      )
