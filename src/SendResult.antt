-- ===== src/SendResult.antt =====
-- result.go: the outcome of a send. A pointer to a SendResult is an `Option`, nil being `none`;
-- `Metadata` is nil or a map; the current time is an argument.
use provider_kit.Base.{Str, bytes, ℤ, Bool, true, false, Option, none, some, [], if◌then◌else◌}
use provider_kit.GoMap.{GoMap, put, put_all}
use provider_kit.Channel.{Channel}
use provider_kit.Errors.{Error, nil, ProviderError, to_error, err_send_failed}

-- An instant, in nanoseconds.
abbrev pub Time : Type 0
Time = ℤ

pub record SendResult : Type 0 where
  pub ok : Bool
  pub message_id : Str
  pub provider : Str
  pub channel : Channel
  pub timestamp : Time
  pub metadata : Option (GoMap Str)
  pub error : Option ProviderError

unfoldable pub new_success_result : Time → Str → Channel → Str → SendResult
new_success_result now provider channel message_id = record {
  ok = true;
  message_id = message_id;
  provider = provider;
  channel = channel;
  timestamp = now;
  metadata = some [];
  error = none;
}

unfoldable pub new_failure_result : Time → Str → Channel → Option ProviderError → SendResult
new_failure_result now provider channel err = record {
  ok = false;
  message_id = [];
  provider = provider;
  channel = channel;
  timestamp = now;
  metadata = some [];
  error = err;
}

-- A nil map is replaced by an empty one before the assignment.
abbrev pub put_metadata : Str → Str → Option (GoMap Str) → Option (GoMap Str)
put_metadata key value none = some (put key value [])
put_metadata key value (some m) = some (put key value m)

unfoldable pub with_metadata : Str → Str → SendResult → SendResult
with_metadata key value r = record r { metadata = put_metadata key value r.metadata }

unfoldable pub get_error : SendResult → Error
get_error r = if r.ok then nil else elim r.error [
  | some e ↦ to_error e
  | none ↦ to_error (err_send_failed (bytes "unknown error") nil)
]

-- `if src != nil { dst = make(map…); for k, v := range src { dst[k] = v } }`
unfoldable pub copy_map : Option (GoMap Str) → Option (GoMap Str)
copy_map none = none
copy_map (some m) = some (put_all m [])
