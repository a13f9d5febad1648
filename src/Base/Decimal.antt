-- ===== src/Base/Decimal.antt =====
-- `strconv.Itoa` on a number that is not negative: its decimal digits.
use authzcache.Base.Tests.{Text, Bool-cases, ltb, if◌then◌else◌}
use authzcache.Base.Lists.{All}
use Prim.Native.Nat.{ℕ, zero, suc, ◌+◌, ◌-◌, ◌*◌, ◌/◌, ◌%◌, ◌≤◌, ◌<◌}
use mathlib.Core.Path.{◌≡◌}
use mathlib.Core.Logic.{inl, inr}
use mathlib.Core.List.{[], ◌∷◌}
use native.Mathlib.Omega.{arith}

-- The digits of `n` before `out`, one a round. A number has fewer digits than `n + 1` rounds.
unfoldable pub emit_digits : ℕ → ℕ → Text → Text
emit_digits zero n out = out
emit_digits (suc rounds) n out =
    let more = emit_digits rounds (n / 10) ((b'0' + n % 10) ∷ out) in
    if ltb n 10 then (b'0' + n) ∷ out else more

unfoldable pub itoa : ℕ → Text
unfolding emit_digits
itoa n = emit_digits (suc n) n []

-- The number that digits stand for, after those that stand for `n`.
unfoldable pub decimal_value : ℕ → Text → ℕ
decimal_value n [] = n
decimal_value n (d ∷ ds) = decimal_value (10 * n + (d - b'0')) ds

abbrev pub IsDigit : ℕ → Type 0
IsDigit d = (b'0' ≤ d) × (d ≤ b'9')

decimal_value-emit_digits :
    (rounds n : ℕ) (out : Text)
    → n < rounds
    → decimal_value 0 (emit_digits rounds n out) ≡ decimal_value n out
unfolding emit_digits decimal_value
decimal_value-emit_digits zero n out h = absurd (omega arith)
decimal_value-emit_digits (suc rounds) n out h =
    ground (arith, decimal_value-emit_digits rounds (n / 10) ((b'0' + n % 10) ∷ out))

emit_digits-All :
    (rounds n : ℕ) (out : Text) → All IsDigit out → All IsDigit (emit_digits rounds n out)
unfolding emit_digits
emit_digits-All zero n out h = h
emit_digits-All (suc rounds) n out h =
    let digit : IsDigit (b'0' + n % 10) = (omega arith, omega arith) in
    elim (Bool-cases (ltb n 10)) [
      | inl last ↦ rw last ((omega arith, ground arith), h)
      | inr more ↦ rw more (emit_digits-All rounds (n / 10) ((b'0' + n % 10) ∷ out) (digit, h))
    ]

-- What is printed are digits, and they stand for the number.
pub decimal_value-itoa : (n : ℕ) → (decimal_value 0 (itoa n) ≡ n) × All IsDigit (itoa n)
unfolding itoa decimal_value
decimal_value-itoa n =
    (decimal_value-emit_digits (suc n) n [] (omega arith), emit_digits-All (suc n) n [] tt)
