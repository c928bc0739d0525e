-- ===== src/Tests/RetryTests.antt =====
-- retry.go on concrete scripts of replies.
use provider_kit.Base.{
  ℕ, ◌+◌, ◌*◌, ◌/◌, ◌^◌, ◌<◌, pos_part, max_int, bytes, ◌==◌, true, false, none, some, List, [],
  ◌∷◌, ◌≡◌, ◌⊎◌, refl, arith, pos,
}
use provider_kit.Channel.{channel_email}
use provider_kit.Errors.{nil, to_error, as_provider_error, get_error_reason}
use provider_kit.SendResult.{SendResult}
use provider_kit.Provider.{Reply}
use provider_kit.Provider.Actions.{returned}
use provider_kit.Retry.{
  Float64, RetryConfig, contains, is_retryable, attempts, calculate_delay, judge, pause,
  provider_loop, proceed, send_provider, send_sender,
}
use provider_kit.Retry.Delay.{IsExact, calculate_delay_linear}
use provider_kit.Retry.Rounds.{Retries}
use provider_kit.Retry.Bound.{Bounded, send_provider-Bounded}
use native.Mathlib.Nat.{zero-add}
use provider_kit.Retry.Outcomes.{send_provider_nil}
use provider_kit.Retry.Equivalence.{on_channel, send_sender-send_provider}
use provider_kit.Tests.Samples.{
  background, result, timeout_error, message, scripted, scripted_sender, patient, exact_float,
  config,
}

abbrev timed_out : Reply
timed_out = (none, to_error timeout_error)

abbrev delivered : Reply
delivered = (some (result true (bytes "m1")), nil)

abbrev refused : Reply
refused = (some (result false (bytes "m1")), nil)

-- One timeout, then a delivery; the last reply is not asked for.
abbrev script : List Reply
script = timed_out ∷ delivered ∷ timed_out ∷ []

retry_once :
    send_provider exact_float patient config background scripted (some message) script
    ≡ (returned delivered, timed_out ∷ [])
unfolding send_provider provider_loop proceed pause judge is_retryable get_error_reason contains
    attempts ◌==◌ bytes as_provider_error
retry_once = refl

-- Numbers a / 2 ^ k, as pairs.
abbrev dyadic : ℕ → ℕ → ℕ × ℕ
dyadic a k = (a, k)

abbrev dyadic_float : Float64 (ℕ × ℕ)
dyadic_float = record {
  of_int = λ a. (pos_part a, 0);
  mul = λ (a, j) (b, k). (a * b, j + k);
  to_int = λ (a, k). pos (a / 2 ^ k);
}

is_exact : IsExact dyadic_float dyadic
is_exact = record {
  of_int_exact = λ a h. refl;
  mul_exact = λ a b k ha hb h small. rw (zero-add k);
  to_int_exact = λ a k h small. refl;
}

abbrev dyadic_config : RetryConfig (ℕ × ℕ)
dyadic_config = record {
  max_retries = pos 2;
  retry_delay = pos 100;
  max_retry_delay = pos 500;
  backoff_multiplier = (3, 1);
  retryable_reasons = [];
}

-- A multiplier of 1.5: the wait after the second attempt is 2 * 1.5 times the delay.
calculate_delay_linear_example : calculate_delay dyadic_float dyadic_config (pos 1) ≡ pos 300
calculate_delay_linear_example =
    calculate_delay_linear dyadic_float dyadic is_exact dyadic_config 100 500 3 1 1 refl refl refl
      (omega arith) (omega arith) (omega arith) (omega arith) (omega arith) (omega arith)

small : 2 < max_int
unfolding max_int
small = omega arith

send_provider-Bounded_example :
    Bounded exact_float patient config background scripted
      (some message)
      2
      script
      (send_provider exact_float patient config background scripted (some message) script)
send_provider-Bounded_example =
    send_provider-Bounded exact_float patient config background scripted (some message) 2 script
      refl small

send_provider_nil_example :
    Retries exact_float patient config background scripted
      (some message)
      (attempts config)
      0
      script
      (none, nil)
      (timed_out ∷ [])
      delivered
    ⊎ ((r : SendResult) × (delivered.0 ≡ some r) × (r.ok ≡ true))
send_provider_nil_example =
    send_provider_nil exact_float patient config background scripted (some message)
      (λ ctx d w h. cc h) script (timed_out ∷ []) delivered.0 retry_once

send_sender-send_provider_example :
    send_sender exact_float patient config background scripted_sender channel_email (some message)
    ≡ send_provider exact_float patient config background
        (on_channel scripted_sender channel_email)
        (some message)
send_sender-send_provider_example =
    send_sender-send_provider exact_float patient config background scripted_sender channel_email
      (some message)
