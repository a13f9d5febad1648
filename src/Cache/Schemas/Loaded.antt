-- ===== src/Cache/Schemas/Loaded.antt =====
-- What a loaded schema is: its text and version, and the conditions of it that compile.
use authzcache.Base.{
  ℕ, ◌≡◌, refl, ◌∙◌, ap, List, [], ◌∷◌, Option, none, some, arith, nat_eq, ◌==◌, if◌then◌else◌,
}
use authzcache.Base.Map.{Map, lookup, insert, lookup-insert}
use authzcache.Sdk.{Schema, Condition}
use authzcache.Cel.{CelEngine, CompiledCondition, compile}
use authzcache.Cache.{Externals, ProjectCache}
use authzcache.Cache.Schemas.{compile_all, set_schema}

-- the first of two options that is there
unfoldable first_of : {A : Type 0} → Option A → Option A → Option A
first_of none p = p
first_of (some a) p = some a

first_of_assoc :
    {A : Type 0} (o p q : Option A) → first_of o (first_of p q) ≡ first_of (first_of o p) q
unfolding first_of
first_of_assoc none p q = refl
first_of_assoc (some a) p q = refl

first_of-none : {A : Type 0} (o : Option A) → first_of o none ≡ o
unfolding first_of
first_of-none none = refl
first_of-none (some a) = refl

module _ (cel : CelEngine) where
  -- The program for an id: the one of the last condition with this id that compiles.
  unfoldable pub program_of : ℕ → List Condition → Option (CompiledCondition cel)
  unfolding first_of
  program_of id [] = none
  program_of id (c ∷ cs) = first_of (program_of id cs) (if c.id == id then compile cel c else none)

  -- one turn of the loop
  compiled_once :
      (id : ℕ) (c : Condition) (o : Option (CompiledCondition cel))
      (m : Map ℕ (CompiledCondition cel))
      → lookup id (elim o [ none ↦ m | some program ↦ insert c.id program m ])
        ≡ first_of (if c.id == id then o else none) (lookup id m)
  unfolding first_of
  compiled_once id c none m = ground arith
  compiled_once id c (some program) m = ground (arith, lookup-insert c.id id program m)

  compile_all-lookup :
      (id : ℕ) (cs : List Condition) (m : Map ℕ (CompiledCondition cel))
      → lookup id (compile_all cel cs m) ≡ first_of (program_of id cs) (lookup id m)
  unfolding compile_all program_of first_of
  compile_all-lookup id [] m = refl
  compile_all-lookup id (c ∷ cs) m =
      compile_all-lookup id cs _
      ∙ ap (first_of (program_of id cs)) (compiled_once id c (compile cel c) m)
      ∙ first_of_assoc (program_of id cs) (if c.id == id then compile cel c else none) (lookup id m)

module _ {x : Externals} where
  -- A schema is loaded: its version is, and under each id the program of its conditions; or none is,
  -- and there is no version and no program.
  abbrev pub Loaded : Option Schema → ProjectCache x → Type 0
  Loaded none pc = (pc.schema ≡ none) × (pc.loaded_version ≡ []) × (pc.compiled ≡ [])
  Loaded (some s) pc =
      (pc.schema ≡ some s)
      × (pc.loaded_version ≡ s.version)
      × ((id : ℕ) → lookup id pc.compiled ≡ program_of x.cel id s.conditions)

  pub set_schema-Loaded :
      (schema : Option Schema) (pc : ProjectCache x) → Loaded schema (set_schema schema pc)
  unfolding set_schema lookup
  set_schema-Loaded none pc = (refl, refl, refl)
  set_schema-Loaded (some s) pc = (
    refl,
    refl,
    λ id.
        compile_all-lookup x.cel id s.conditions []
        ∙ first_of-none (program_of x.cel id s.conditions),
  )
