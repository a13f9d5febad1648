-- ===== src/Direct/Key.antt =====
-- When the key "resource:target:relation" determines the relation, and when it does not.
use authzcache.Base.{
  ℕ, ◌+◌, ◌≡◌, refl, ap, ◌≢◌, false, [], ◌∷◌, ◌++◌, arith, Text, text_eq, nat_eq, eqb, contains,
  length, length-append, if◌then◌else◌,
}
use mathlib.Core.List.{append_assoc}
use authzcache.Sdk.{Relation}
use authzcache.Direct.{key, colon}
use authzcache.Direct.Sweep.{IsUnambiguous}

-- Separators in a text.
count : ℕ → Text → ℕ
count sep [] = 0
count sep (c ∷ s) = (if eqb c sep then 1 else 0) + count sep s

count-append : (sep : ℕ) (s t : Text) → count sep (s ++ t) ≡ count sep s + count sep t
unfolding count
count-append sep [] t = omega arith
count-append sep (c ∷ s) t = ground (arith, count-append sep s t)

contains_of_count : (sep : ℕ) (s : Text) → count sep s ≡ 0 → contains sep s ≡ false
unfolding count
contains_of_count sep [] h = refl
contains_of_count sep (c ∷ s) h = ground (arith, contains_of_count sep s)

count_of_contains : (sep : ℕ) (s : Text) → contains sep s ≡ false → count sep s ≡ 0
unfolding count
count_of_contains sep [] h = refl
count_of_contains sep (c ∷ s) h = ground (arith, count_of_contains sep s)

-- Texts without the separator before it are equal if the joined texts are.
pub split_unique :
    (sep : ℕ) (a b a' b' : Text)
    → contains sep a ≡ false
    → contains sep a' ≡ false
    → a ++ sep ∷ b ≡ a' ++ sep ∷ b'
    → (a ≡ a') × (b ≡ b')
split_unique sep [] b [] b' h h' e = ground arith
split_unique sep [] b (c ∷ a') b' h h' e = absurd (ground arith)
split_unique sep (c ∷ a) b [] b' h h' e = absurd (ground arith)
split_unique sep (c ∷ a) b (c' ∷ a') b' h h' e = ground (arith, split_unique sep a b a' b')

-- No part of the relation has a colon.
pub record IsPlain (r : Relation) : Type 0 where
  pub resource : contains colon r.resource ≡ false
  pub target : contains colon r.target ≡ false
  pub relation : contains colon r.relation ≡ false

count-key :
    (r : Relation)
    → count colon (key r)
      ≡ count colon r.resource + count colon r.target + count colon r.relation + 2
unfolding key count
count-key r = ground (
  arith,
  count-append colon r.resource (colon ∷ (r.target ++ colon ∷ r.relation)),
  count-append colon r.target (colon ∷ r.relation),
)

IsPlain-of_key : (p r : Relation) → IsPlain r → key p ≡ key r → IsPlain p
IsPlain-of_key p r h e = record {
  resource = contains_of_count colon p.resource (omega (arith, total));
  target = contains_of_count colon p.target (omega (arith, total));
  relation = contains_of_count colon p.relation (omega (arith, total));
}
  where
    total : count colon p.resource + count colon p.target + count colon p.relation ≡ 0
    total = omega (
      arith,
      ap (count colon) e,
      count-key p,
      count-key r,
      count_of_contains colon r.resource h.resource,
      count_of_contains colon r.target h.target,
      count_of_contains colon r.relation h.relation,
    )

-- A relation none of whose parts has a colon shares its key with no relation of another resource,
-- target or name, whatever colons that one has.
pub key-injective :
    (p r : Relation)
    → IsPlain r
    → key p ≡ key r
    → (p.resource ≡ r.resource) × (p.target ≡ r.target) × (p.relation ≡ r.relation)
unfolding key
key-injective p r h e =
    let h' = IsPlain-of_key p r h e in
    let (resource, rest) =
      split_unique colon p.resource (p.target ++ colon ∷ p.relation) r.resource
        (r.target ++ colon ∷ r.relation) h'.resource h.resource e in
    let (target, relation) =
      split_unique colon p.target p.relation r.target r.relation h'.target h.target rest in
    (resource, target, relation)

pub IsPlain-IsUnambiguous : (r : Relation) → IsPlain r → IsUnambiguous r
IsPlain-IsUnambiguous r h p e = let (a, b, _) = key-injective p r h e in (a, b)

-- Otherwise a colon may move between the parts: the resource "a:b" with the target "c" has the key of
-- the resource "a" with the target "b:c", and these are different relations.
pub key_collision :
    (a b c kind kind' l : Text)
    → let r : Relation = record {
      resource = a ++ (colon ∷ b);
      resource_type = kind;
      relation = l;
      target = c;
      target_type = kind';
    } in
      let s : Relation = record {
        resource = a;
        resource_type = kind;
        relation = l;
        target = b ++ (colon ∷ c);
        target_type = kind';
      } in
      (key r ≡ key s) × (r.resource ≢ s.resource) × (r.target ≢ s.target)
unfolding key
key_collision a b c kind kind' l = (
  simp append_assoc,
  λ e. omega (arith, ap length e, length-append a (colon ∷ b)),
  λ e. omega (arith, ap length e, length-append b (colon ∷ c)),
)
