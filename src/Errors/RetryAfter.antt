-- ===== src/Errors/RetryAfter.antt =====
-- What an HTTP client reads as Retry-After.
use authzcache.Base.{
  ◌≢◌, ℕ, suc, zero, ◌≡◌, ◌≤◌, refl, ◌∙◌, ap, true, List, [], ◌∷◌, Option, none, some, inl, inr,
  arith, Text, nat_eq, ◌==◌, ltb, length, All, Bool-cases,
}
use authzcache.Base.Decimal.{itoa, decimal_value, IsDigit, decimal_value-itoa}
use authzcache.Base.Int.{ℤ, pos, negsuc}
use authzcache.Sdk.{DescopeError, descope_error}
use authzcache.Errors.{
  error_type, retry_after_of, set_retry_after, service_error_from_sdk_error, relay_retry_after,
  error_handler_with_retry_after, set_first,
}

-- the header values of one that is set or not
abbrev pub values_of : Option Text → List Text
values_of none = []
values_of (some value) = value ∷ []

-- a rate limit with a delay
pub record IsDelay (de : DescopeError) (seconds : ℕ) : Type 0 where
  pub coded : 4 ≤ length de.code
  pub limited : de.status ≡ some (pos 429)
  pub delayed : de.retry_after ≡ some (pos seconds)
  pub positive : 1 ≤ seconds

module _ {Writer : Type 0} (set_header : Text → Writer → Writer) (de : DescopeError)
    (w : Writer) where
  -- The response before the common handler writes the error: with the delay in decimal digits, or as
  -- it was.
  pub data Relayed : Writer → Type 0 where
    delay :
        (seconds : ℕ) (value : Text)
        → IsDelay de seconds
        → decimal_value 0 value ≡ seconds
        → All IsDigit value
        → Relayed (set_header value w)
    untouched : ((seconds : ℕ) → ¬ IsDelay de seconds) → Relayed w

-- What `setRetryAfter` sends.
data Sent (de : DescopeError) : Option Text → Type 0 where
  sent_delay : (seconds : ℕ) → IsDelay de seconds → Sent de (some (itoa seconds))
  sent_nothing : ((seconds : ℕ) → ¬ IsDelay de seconds) → Sent de none

set_retry_after-other :
    (n : ℕ) (r : Option ℤ) → n ≢ 429 → set_retry_after (error_type (some (pos n))) r ≡ none
unfolding error_type set_retry_after
set_retry_after-other n r h = ground arith

limited-Sent :
    (de : DescopeError)
    → 4 ≤ length de.code
    → de.status ≡ some (pos 429)
    → (r : Option ℤ) → de.retry_after ≡ r
    → Sent de (retry_after_of r)
unfolding retry_after_of
limited-Sent de coded limited none e = sent_nothing (λ s d. absurd (ground (arith, d.delayed)))
limited-Sent de coded limited (some (negsuc n)) e =
    sent_nothing (λ s d. absurd (ground (arith, d.delayed)))
limited-Sent de coded limited (some (pos zero)) e =
    sent_nothing (λ s d. absurd (ground (arith, d.delayed, d.positive)))
limited-Sent de coded limited (some (pos (suc n))) e =
    let positive : ltb 0 (suc n) ≡ true = ground arith in
    rw positive (
      sent_delay (suc n)
        (record { coded = coded; limited = limited; delayed = e; positive = omega arith }))

coded-Sent :
    (de : DescopeError)
    → 4 ≤ length de.code
    → (status : Option ℤ) → de.status ≡ status
    → Sent de (set_retry_after (error_type status) de.retry_after)
unfolding error_type set_retry_after
coded-Sent de coded none e = sent_nothing (λ s d. absurd (ground (arith, d.limited)))
coded-Sent de coded (some (negsuc n)) e = sent_nothing (λ s d. absurd (ground (arith, d.limited)))
coded-Sent de coded (some (pos n)) e = elim (Bool-cases (n == 429)) [
  | inl same ↦
      let is : n ≡ 429 = ground arith in
      rw is (limited-Sent de coded (e ∙ ap (λ n. some (pos n)) is) de.retry_after refl)
  | inr other ↦
      rw (set_retry_after-other n de.retry_after (ground arith))
        (sent_nothing (λ s d. absurd (ground (arith, d.limited))))
]

service_error-Sent :
    (error_text : DescopeError → Text) (de : DescopeError)
    → Sent de (service_error_from_sdk_error error_text (some (descope_error de))).retry_after
unfolding service_error_from_sdk_error
service_error-Sent error_text de = elim (Bool-cases (ltb (length de.code) 4)) [
  | inl short ↦ rw short (sent_nothing (λ s d. absurd (ground (arith, d.coded))))
  | inr long ↦ rw long (coded-Sent de (ground arith) de.status refl)
]

module _ {Writer : Type 0} (set_header : Text → Writer → Writer) (de : DescopeError)
    (w : Writer) where
  relay-Relayed :
      (sent : Option Text)
      → Sent de sent
      → Relayed set_header de w (relay_retry_after set_header (some (values_of sent)) w)
  unfolding relay_retry_after set_first
  relay-Relayed _ (sent_delay seconds d) =
      let (value, digits) = decimal_value-itoa seconds in
      delay seconds (itoa seconds) d value digits
  relay-Relayed _ (sent_nothing h) = untouched h

  -- If the gateway gets as header metadata what was set for an error of the SDK, the common error
  -- handler runs on a response that has Retry-After set to the decimal digits of the SDK's delay
  -- when the error has a code of four bytes or more, is a rate limit (429) and has a positive delay,
  -- and on the response as it was in all other cases.
  pub retry_after-Relayed :
      (error_text : DescopeError → Text) (values : List Text) {E : Type 0}
      (common : E → Writer → Writer) (e : E)
      → values
        ≡ values_of (service_error_from_sdk_error error_text (some (descope_error de))).retry_after
      → (left : Writer) × Relayed set_header de w left
        × (error_handler_with_retry_after set_header common (some values) e w ≡ common e left)
  unfolding error_handler_with_retry_after
  retry_after-Relayed error_text values common e same =
      let sent = (service_error_from_sdk_error error_text (some (descope_error de))).retry_after in
      (
        relay_retry_after set_header (some (values_of sent)) w,
        relay-Relayed sent (service_error-Sent error_text de),
        ap (λ values. common e (relay_retry_after set_header (some values) w)) same,
      )
