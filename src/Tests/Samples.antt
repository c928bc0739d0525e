-- ===== src/Tests/Samples.antt =====
-- Worlds, runtimes and providers for the tests.
use provider_kit.Base.{
  ℕ, suc, ◌*◌, Str, bytes, Bool, true, false, none, some, List, [], ◌∷◌, pos, pos_part,
}
use provider_kit.Channel.{channel_email}
use provider_kit.Errors.Reason
use provider_kit.Errors.{nil, ProviderError, to_error, plain}
use provider_kit.SendResult.{SendResult}
use provider_kit.Message.{Message}
use provider_kit.Provider.{Context, Reply, Provider, Sender, Runtime}
use provider_kit.Provider.Actions.{Outcome, returned}
use provider_kit.Retry.{Float64, RetryConfig, default_reasons}

abbrev pub background : Context
background = record { canceled_at = none; deadline = none }

abbrev pub result : Bool → Str → SendResult
result ok id = record {
  ok = ok;
  message_id = id;
  provider = bytes "smtp";
  channel = channel_email;
  timestamp = pos 0;
  metadata = some [];
  error = none;
}

abbrev pub timeout_error : ProviderError
timeout_error = record {
  reason = Reason.timeout;
  message = bytes "slow";
  provider_name = [];
  channel = [];
  err = nil;
}

abbrev pub unauthorized_error : ProviderError
unauthorized_error = record timeout_error { reason = Reason.unauthorized }

abbrev pub message : Message
message = record {
  to = bytes "someone@example.org";
  subject = [];
  body = bytes "hello";
  template = [];
  params = some ((bytes "code", bytes "123456") ∷ []);
  code = [];
  locale = [];
  idempotency_key = bytes "k1";
  metadata = none;
}

-- A world that is the list of replies which the provider has still to give.
abbrev pub next_reply : List Reply → Outcome Reply × List Reply
next_reply [] = (returned (none, plain (bytes "no reply")), [])
next_reply (r ∷ rs) = (returned r, rs)

abbrev pub scripted : Provider (List Reply)
scripted = record {
  send = λ ctx msg w. next_reply w;
  channel = channel_email;
  name = bytes "smtp";
  validate = nil;
}

abbrev pub scripted_sender : Sender (List Reply)
scripted_sender = record { send = λ ctx channel msg w. next_reply w }

abbrev pub patient : Runtime (List Reply)
patient = record {
  now = λ w. (pos 0, w);
  elapses = λ ctx d w. (true, w);
  rand_read = λ w. ((0x0a ∷ 0xbc ∷ [], nil), w);
}

-- A world that is a clock; each draw and each look at it moves it on.
abbrev pub ticking : Runtime ℕ
ticking = record {
  now = λ n. (pos n, suc n);
  elapses = λ ctx d n. (true, n);
  rand_read = λ n. ((n ∷ 0xbc ∷ [], nil), suc n);
}

-- A provider that always fails with a result.
abbrev pub failing : Provider ℕ
failing = record {
  send = λ ctx msg n. (returned (some (result false (bytes "m1")), to_error timeout_error), suc n);
  channel = channel_email;
  name = bytes "smtp";
  validate = nil;
}

-- Numbers as floats: every operation is exact.
abbrev pub exact_float : Float64 ℕ
exact_float = record { of_int = pos_part; mul = ◌*◌; to_int = pos }

abbrev pub config : RetryConfig ℕ
config = record {
  max_retries = pos 2;
  retry_delay = pos 100;
  max_retry_delay = pos 500;
  backoff_multiplier = 2;
  retryable_reasons = default_reasons;
}
