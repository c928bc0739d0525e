-- ===== src/Retry/Delay.antt =====
-- retry.go: CalculateDelay and IsRetryable.
use provider_kit.Base.{
  ℕ, ◌+◌, ◌*◌, ◌/◌, ◌^◌, ltb, ◌≤◌, ◌<◌, ◌≡◌, ◌≢◌, ◌↔◌, ◌⊎◌, inl, inr, refl, arith, ==_iff, true,
  none, some, List, [], ◌∷◌, ℤ, pos, ◌≤ℤ◌, inc_int, if◌then◌else◌, Option-cases, sym, ◌∙◌,
}
use provider_kit.Errors.Reason.{ErrorReason}
use provider_kit.Errors.{Error, nil, ProviderError, as_provider_error, get_error_reason}
use provider_kit.Retry.{
  Float64, RetryConfig, contains, retryable_reason, is_retryable, calculate_delay,
}

-- What IEEE 754 promises of the operations, `dyadic a k` being the float64 a / 2 ^ k: an integer of at
-- most 53 bits is exact, so is a product when the numerators and their product have at most 53 bits, and the conversion to an
-- integer drops the fraction. (Exponents this small are far from the least one.)
pub record IsExact {F : Type 0} (float : Float64 F) (dyadic : ℕ → ℕ → F) : Type 0 where
  pub of_int_exact : (a : ℕ) → a ≤ 2 ^ 53 → float.of_int (pos a) ≡ dyadic a 0
  pub mul_exact :
      (a b k : ℕ)
      → a ≤ 2 ^ 53
      → b ≤ 2 ^ 53
      → a * b ≤ 2 ^ 53
      → k ≤ 1000
      → float.mul (dyadic a 0) (dyadic b k) ≡ dyadic (a * b) k
  pub to_int_exact : (a k : ℕ) → a ≤ 2 ^ 53 → k ≤ 1000 → float.to_int (dyadic a k) ≡ pos (a / 2 ^ k)

-- Whatever the floating-point operations do, no wait is longer than MaxRetryDelay.
pub calculate_delay-le_max :
    {F : Type 0} (float : Float64 F) (c : RetryConfig F) (attempt : ℤ)
    → calculate_delay float c attempt ≤ℤ c.max_retry_delay
unfolding calculate_delay
calculate_delay-le_max float c attempt = ground arith

inc_int-pos : (n : ℕ) → n < 2 ^ 53 → inc_int (pos n) ≡ pos (n + 1)
unfolding inc_int
inc_int-pos n h = ground arith

-- For a BackoffMultiplier m / 2 ^ k with m up to 2 ^ 53 and k up to 1000, which the usual factors such
-- as 1.5 are, and where RetryDelay * (n + 1) and RetryDelay * (n + 1) * m are up to 2 ^ 53: the wait after attempt n is
-- RetryDelay * (n + 1) * m / 2 ^ k, rounded down and capped by MaxRetryDelay. It grows linearly in the
-- attempt.
pub calculate_delay_linear :
    {F : Type 0} (float : Float64 F) (dyadic : ℕ → ℕ → F) (exact : IsExact float dyadic)
    (c : RetryConfig F) (delay cap m k n : ℕ)
    → c.retry_delay ≡ pos delay
    → c.max_retry_delay ≡ pos cap
    → c.backoff_multiplier ≡ dyadic m k
    → k ≤ 1000
    → m ≤ 2 ^ 53
    → n < 2 ^ 53
    → delay ≤ 2 ^ 53
    → delay * (n + 1) ≤ 2 ^ 53
    → delay * (n + 1) * m ≤ 2 ^ 53
    → calculate_delay float c (pos n)
      ≡ pos (if ltb cap (delay * (n + 1) * m / 2 ^ k) then cap else delay * (n + 1) * m / 2 ^ k)
unfolding calculate_delay
calculate_delay_linear float dyadic exact c delay cap m k n d most b places exactly small fits p q =
    rw
      (
        d,
        most,
        b,
        inc_int-pos n small,
        exact.of_int_exact delay fits,
        exact.of_int_exact (n + 1) (omega arith),
        exact.mul_exact delay (n + 1) 0 fits (omega arith) p (omega arith),
        exact.mul_exact (delay * (n + 1)) m k p exactly q places,
        exact.to_int_exact (delay * (n + 1) * m) k q places,
      )
      (ground arith)

-- The listed reasons, as a predicate.
abbrev pub Listed : ErrorReason → List ErrorReason → Type 0
Listed reason [] = ⊥
Listed reason (r ∷ rs) = (reason ≡ r) ⊎ Listed reason rs

contains_iff :
    (rs : List ErrorReason) (reason : ErrorReason) → (contains rs reason ≡ true) ↔ Listed reason rs
unfolding contains
contains_iff [] reason = ground arith
contains_iff (r ∷ rs) reason = ground (arith, ==_iff reason r, contains_iff rs reason)

is_retryable_of_ne :
    {F : Type 0} (c : RetryConfig F) (err : Error)
    → err ≢ nil
    → is_retryable c err ≡ retryable_reason c.retryable_reasons (get_error_reason err)
unfolding is_retryable
is_retryable_of_ne c nil h = absurd (h refl)
is_retryable_of_ne c err h = refl

ne-nil_of_is_retryable :
    {F : Type 0} (c : RetryConfig F) (err : Error) → is_retryable c err ≡ true → err ≢ nil
unfolding is_retryable
ne-nil_of_is_retryable c nil h = cc
ne-nil_of_is_retryable c err h = λ e. cc

-- What makes an error worth another attempt.
abbrev pub IsTransient : List ErrorReason → Error → Type 0
IsTransient reasons err =
    (as_provider_error err ≡ none)
    ⊎ ((e : ProviderError) × (as_provider_error err ≡ some e) × Listed e.reason reasons)

retryable_reason_iff :
    (reasons : List ErrorReason) (err : Error)
    → (retryable_reason reasons (get_error_reason err) ≡ true) ↔ IsTransient reasons err
unfolding get_error_reason retryable_reason
retryable_reason_iff reasons err = elim (Option-cases (as_provider_error err)) [
  | inl missing ↦ (λ _. inl missing, λ _. ground arith)
  | inr (e, found) ↦ (
    λ h. inr (e, found, (contains_iff reasons e.reason).0 (ground arith)),
    λ t. ground (arith, contains_iff reasons e.reason),
  )
]

-- An error is retried exactly when it is not nil, and either its chain has no ProviderError or the
-- first one has a reason that the configuration lists.
pub is_retryable_iff :
    {F : Type 0} (c : RetryConfig F) (err : Error)
    → (is_retryable c err ≡ true) ↔ ((err ≢ nil) × IsTransient c.retryable_reasons err)
is_retryable_iff c err = (
  λ h.
      let ne : err ≢ nil = ne-nil_of_is_retryable c err h in
      (ne, (retryable_reason_iff _ err).0 (sym (is_retryable_of_ne c err ne) ∙ h)),
  λ (ne, t). is_retryable_of_ne c err ne ∙ (retryable_reason_iff _ err).1 t,
)
