-- ===== src/Retry.antt =====
-- retry.go: retrying a provider or a sender. `float64` is a parameter, a type with the operations
-- that CalculateDelay uses.
pub mod Delay
pub mod Rounds
pub mod Bound
pub mod Outcomes
pub mod Equivalence
use provider_kit.Base.{
  ℕ, zero, suc, Str, ◌==◌, Bool, true, false, Option, none, some, List, [], ◌∷◌, ◌||◌, ℤ, pos,
  pos_part, ltb_ℤ, inc_int, if◌then◌else◌,
}
use provider_kit.Channel.{Channel}
use provider_kit.Errors.Reason
use provider_kit.Errors.Reason.{ErrorReason}
use provider_kit.Errors.{Error, nil, get_error_reason}
use provider_kit.SendResult.{SendResult}
use provider_kit.Message.{Message}
use provider_kit.Provider.{Context, ctx_err, Duration, Reply, Provider, Sender, Runtime}
use provider_kit.Provider.Actions.{
  Outcome, Action, returned, panicked, pure, panic, total, continue, ◌>>=◌,
}

pub record Float64 (F : Type 0) : Type 0 where
  -- float64(n)
  pub of_int : ℤ → F
  pub mul : F → F → F
  -- time.Duration(f)
  pub to_int : F → ℤ

pub record RetryConfig (F : Type 0) : Type 0 where
  pub max_retries : ℤ
  pub retry_delay : Duration
  pub max_retry_delay : Duration
  pub backoff_multiplier : F
  pub retryable_reasons : List ErrorReason

abbrev pub default_reasons : List ErrorReason
default_reasons = Reason.provider_down ∷ Reason.timeout ∷ Reason.rate_limited ∷ []

-- The loop over RetryableReasons.
unfoldable pub contains : List ErrorReason → ErrorReason → Bool
contains [] reason = false
contains (r ∷ rs) reason = reason == r || contains rs reason

retryable_reason : List ErrorReason → ErrorReason × Bool → Bool
retryable_reason rs (reason, false) = true
retryable_reason rs (reason, true) = contains rs reason

module _ {F : Type 0} where
  unfoldable pub is_retryable : RetryConfig F → Error → Bool
  unfolding retryable_reason contains
  is_retryable c nil = false
  is_retryable c err = retryable_reason c.retryable_reasons (get_error_reason err)

  -- maxAttempts := MaxRetries + 1, and the rounds of a loop that counts up to it
  unfoldable pub attempts : RetryConfig F → ℕ
  unfolding inc_int
  attempts c = pos_part (inc_int c.max_retries)

module _ {F : Type 0} (float : Float64 F) where
  open float use {of_int, mul, to_int}

  unfoldable pub default_retry_config : RetryConfig F
  default_retry_config = record {
    max_retries = pos 3;
    retry_delay = pos 100_000_000;
    max_retry_delay = pos 5_000_000_000;
    backoff_multiplier = of_int (pos 2);
    retryable_reasons = default_reasons;
  }

  unfoldable pub calculate_delay : RetryConfig F → ℤ → Duration
  calculate_delay c attempt =
      let delay : Duration =
        to_int (mul (mul (of_int c.retry_delay) (of_int (inc_int attempt))) c.backoff_multiplier) in
      if ltb_ℤ c.max_retry_delay delay then c.max_retry_delay else delay

-- What the loop does with a reply.
pub data Verdict : Type 0 where
  success give_up retry crash : Verdict

-- `err == nil && result.OK` reads through a nil result; a result that is not OK is retried also
-- where there is no error.
unfoldable pub judge : {F : Type 0} → RetryConfig F → Reply → Verdict
judge c (none, nil) = crash
judge c (some r, nil) = if r.ok then success else retry
judge c (result, err) = if is_retryable c err then retry else give_up

module _ {F W : Type 0} (float : Float64 F) (rt : Runtime W) (c : RetryConfig F)
    (ctx : Context) where
  -- The wait before every attempt but the first: true if the timer fired.
  unfoldable pub pause : ℕ → Action W Bool
  pause zero = pure true
  pause (suc n) = total (rt.elapses ctx (calculate_delay float c (pos n)))

  -- return nil, ctx.Err()
  unfoldable pub give_in : Action W Reply
  give_in = do now ← total rt.now; pure (none, ctx_err ctx now)

  unfoldable pub proceed : Verdict → Reply → Action W Reply → Action W Reply
  proceed success reply again = pure reply
  proceed give_up reply again = pure reply
  proceed retry reply again = again
  proceed crash reply again = panic

  -- The loop of (*RetryProvider).Send: the attempts left, the attempt, the last reply.
  unfoldable pub provider_loop : Provider W → Option Message → ℕ → ℕ → Reply → Action W Reply
  provider_loop p msg zero attempt last = pure last
  provider_loop p msg (suc left) attempt last = do
    fired ← pause attempt
    if fired
        then (do
          reply ← p.send ctx msg
          proceed (judge c reply) reply (provider_loop p msg left (suc attempt) reply))
        else give_in

  -- (*RetryProvider).Send
  unfoldable pub send_provider : Provider W → Option Message → Action W Reply
  send_provider p msg = provider_loop p msg (attempts c) 0 (none, nil)

  -- The loop of (*RetrySender).Send.
  unfoldable pub sender_loop : Sender W → Channel → Option Message → ℕ → ℕ → Reply → Action W Reply
  sender_loop s channel msg zero attempt last = pure last
  sender_loop s channel msg (suc left) attempt last = do
    fired ← pause attempt
    if fired
        then (do
          reply ← s.send ctx channel msg
          proceed (judge c reply) reply (sender_loop s channel msg left (suc attempt) reply))
        else give_in

  -- (*RetrySender).Send
  unfoldable pub send_sender : Sender W → Channel → Option Message → Action W Reply
  send_sender s channel msg = sender_loop s channel msg (attempts c) 0 (none, nil)

module _ {F W : Type 0} (float : Float64 F) (rt : Runtime W) where
  -- A nil configuration is replaced by the default one.
  unfoldable pub config_or_default : Option (RetryConfig F) → RetryConfig F
  config_or_default none = default_retry_config float
  config_or_default (some c) = c

  -- RetryProvider, by its methods
  unfoldable pub retry_provider : Provider W → RetryConfig F → Provider W
  unfolding send_provider
  retry_provider p c = record {
    send = λ ctx msg. send_provider float rt c ctx p msg;
    channel = p.channel;
    name = p.name;
    validate = p.validate;
  }

  -- NewRetryProvider
  unfoldable pub new_retry_provider : Provider W → Option (RetryConfig F) → Provider W
  unfolding retry_provider
  new_retry_provider p config = retry_provider p (config_or_default config)

  -- RetrySender, by its method
  unfoldable pub retry_sender : Sender W → RetryConfig F → Sender W
  retry_sender s c = record { send = λ ctx channel msg. send_sender float rt c ctx s channel msg }

  -- NewRetrySender
  unfoldable pub new_retry_sender : Sender W → Option (RetryConfig F) → Sender W
  unfolding retry_sender
  new_retry_sender s config = retry_sender s (config_or_default config)

  unfoldable pub wrap_with_retry : Provider W → ℤ → Duration → Provider W
  unfolding new_retry_provider
  wrap_with_retry p max_retries retry_delay = new_retry_provider p (
      some (record {
        max_retries = max_retries;
        retry_delay = retry_delay;
        max_retry_delay = pos 5_000_000_000;
        backoff_multiplier = float.of_int (pos 2);
        retryable_reasons = (default_retry_config float).retryable_reasons;
      }))
