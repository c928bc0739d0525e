-- ===== src/Errors.antt =====
-- errors.go: `ProviderError` and the helpers that read an error chain.
-- `Error` is Go's `error` interface with the dynamic types that the package meets. A pointer to a
-- ProviderError is modelled by the value that it points to; where a function writes through the
-- pointer, the chain as it reads afterwards is a second result.
pub mod Reason
pub mod Chain
use provider_kit.Base.{
  Str, bytes, ◌==◌, Bool, true, false, Option, none, some, [], ◌++◌, if◌then◌else◌,
}
use provider_kit.Channel.{Channel}
use Reason.{ErrorReason}

pub data Error : Type 0 where
  nil : Error
  -- *ProviderError
  provider_error :
      (reason : ErrorReason) (message provider_name : Str) (channel : Channel) (err : Error) → Error
  -- fmt.Errorf("text: %w", err)
  wrapped : (text : Str) (err : Error) → Error
  -- errors.New, and errors of other packages that wrap nothing
  plain : (text : Str) → Error
  -- context.Canceled, context.DeadlineExceeded
  canceled : Error
  deadline_exceeded : Error
  -- net.Error, with its `Timeout()`
  network : (timed_out : Bool) (text : Str) → Error

pub record ProviderError : Type 0 where
  pub reason : ErrorReason
  pub message : Str
  pub provider_name : Str
  pub channel : Channel
  pub err : Error

-- The pointer as an `error` value.
abbrev pub to_error : ProviderError → Error
to_error e = provider_error e.reason e.message e.provider_name e.channel e.err

-- (*ProviderError).Unwrap
unfoldable pub unwrap : ProviderError → Error
unwrap e = e.err

-- (*ProviderError).Error, and the text of the other errors
unfoldable pub error_text : Error → Str
error_text nil = []
error_text (provider_error reason message [] channel err) =
    bytes "[" ++ channel ++ bytes "] " ++ reason ++ bytes ": " ++ message
error_text (provider_error reason message provider_name channel err) =
    bytes "["
    ++ channel
    ++ bytes "/"
    ++ provider_name
    ++ bytes "] "
    ++ reason
    ++ bytes ": "
    ++ message
error_text (wrapped text err) = text ++ bytes ": " ++ error_text err
error_text (plain text) = text
error_text canceled = bytes "context canceled"
error_text deadline_exceeded = bytes "context deadline exceeded"
error_text (network timed_out text) = text

unfoldable pub new_provider_error : ErrorReason → Str → ProviderError
new_provider_error reason message = record {
  reason = reason;
  message = message;
  provider_name = [];
  channel = [];
  err = nil;
}

unfoldable pub with_provider : ProviderError → Str → Channel → ProviderError
with_provider e name channel = record e { provider_name = name; channel = channel }

unfoldable pub with_error : ProviderError → Error → ProviderError
with_error e err = record e { err = err }

abbrev with_cause : ErrorReason → Str → Error → ProviderError
with_cause reason message err = record {
  reason = reason;
  message = message;
  provider_name = [];
  channel = [];
  err = err;
}

unfoldable pub err_send_failed : Str → Error → ProviderError
err_send_failed message err = with_cause Reason.send_failed message err

unfoldable pub err_provider_down : Str → Error → ProviderError
err_provider_down message err = with_cause Reason.provider_down message err

unfoldable pub err_invalid_config : Str → ProviderError
err_invalid_config message = with_cause Reason.invalid_config message nil

unfoldable pub err_rate_limited : Str → ProviderError
err_rate_limited message = with_cause Reason.rate_limited message nil

unfoldable pub err_invalid_destination : Str → ProviderError
err_invalid_destination message = with_cause Reason.invalid_destination message nil

unfoldable pub err_timeout : Str → Error → ProviderError
err_timeout message err = with_cause Reason.timeout message err

unfoldable pub err_unauthorized : Str → ProviderError
err_unauthorized message = with_cause Reason.unauthorized message nil

unfoldable pub err_not_registered : Channel → ProviderError
err_not_registered channel = record {
  reason = Reason.not_registered;
  message = bytes "no provider registered for channel: " ++ channel;
  provider_name = [];
  channel = channel;
  err = nil;
}

unfoldable pub err_validation_failed : Str → ProviderError
err_validation_failed message = with_cause Reason.validation_failed message nil

unfoldable pub err_idempotency_conflict : Str → ProviderError
err_idempotency_conflict message = with_cause Reason.idempotency_conflict message nil

-- errors.As(err, &providerErr): the first ProviderError of the chain
unfoldable pub as_provider_error : Error → Option ProviderError
as_provider_error (provider_error reason message provider_name channel err) = some (record {
  reason = reason;
  message = message;
  provider_name = provider_name;
  channel = channel;
  err = err;
})
as_provider_error (wrapped text err) = as_provider_error err
as_provider_error _ = none

unfoldable pub is_provider_error : Error → Bool
is_provider_error err = elim (as_provider_error err) [ some e ↦ true | none ↦ false ]

unfoldable pub get_error_reason : Error → ErrorReason × Bool
get_error_reason err = elim (as_provider_error err) [
  | some e ↦ (e.reason, true)
  | none ↦ ([], false)
]

-- What NormalizeError writes through the pointer that it found.
fill : Channel → Str → ProviderError → ProviderError
fill channel name e =
    let e' : ProviderError = if e.channel == [] then record e { channel = channel } else e in
    if e'.provider_name == [] then record e' { provider_name = name } else e'

-- The chain, after a write through the first ProviderError pointer in it.
write_first : (ProviderError → ProviderError) → Error → Error
write_first f (provider_error reason message provider_name channel err) = to_error (
    f (record {
      reason = reason;
      message = message;
      provider_name = provider_name;
      channel = channel;
      err = err;
    }))
write_first f (wrapped text err) = wrapped text (write_first f err)
write_first f err = err

abbrev wrap_unknown : Error → Channel → Str → Option ProviderError × Error
wrap_unknown nil channel name = (none, nil)
wrap_unknown err channel name = (
  some (record {
    reason = Reason.send_failed;
    message = error_text err;
    provider_name = name;
    channel = channel;
    err = err;
  }),
  err,
)

-- The ProviderError that is returned (nil for a nil error), and how `err` reads afterwards.
unfoldable pub normalize_error : Error → Channel → Str → Option ProviderError × Error
unfolding fill write_first as_provider_error error_text
normalize_error err channel name = elim (as_provider_error err) [
  | some e ↦ (some (fill channel name e), write_first (fill channel name) err)
  | none ↦ wrap_unknown err channel name
]
