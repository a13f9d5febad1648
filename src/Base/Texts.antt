-- ===== src/Base/Texts.antt =====
-- Texts: the bytes of a literal, and the trimming of Go's strings package by a test on bytes.
use Prim.Native.Nat.{ℕ}
use Prim.Native.String.{String}
use Prim.Native.Char.{code}
use mathlib.Core.Bool.{Bool}
use mathlib.Core.List.{[], ◌∷◌}
use authzcache.Base.Tests.{Text, if◌then◌else◌}
use authzcache.Base.Lists.{is_empty}

abbrev pub codes : String → Text
codes String.[] = []
codes (String.◌∷◌ c s) = code c ∷ codes s

-- without the first bytes that pass the test
unfoldable pub trim_start : (ℕ → Bool) → Text → Text
trim_start p [] = []
trim_start p (c ∷ s) = let rest = trim_start p s in if p c then rest else c ∷ s

-- without the last bytes that pass the test
unfoldable pub trim_end : (ℕ → Bool) → Text → Text
trim_end p [] = []
trim_end p (c ∷ s) =
    let rest = trim_end p s in if is_empty rest then (if p c then [] else c ∷ []) else c ∷ rest
