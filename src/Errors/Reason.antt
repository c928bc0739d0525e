-- ===== src/Errors/Reason.antt =====
-- errors.go: the reason codes. `ErrorReason` is a string type, so any text is a reason.
use provider_kit.Base.{Str, bytes}

abbrev pub ErrorReason : Type 0
ErrorReason = Str

abbrev pub send_failed : ErrorReason
send_failed = bytes "send_failed"

abbrev pub provider_down : ErrorReason
provider_down = bytes "provider_down"

abbrev pub invalid_config : ErrorReason
invalid_config = bytes "invalid_config"

abbrev pub rate_limited : ErrorReason
rate_limited = bytes "rate_limited"

abbrev pub invalid_destination : ErrorReason
invalid_destination = bytes "invalid_destination"

abbrev pub timeout : ErrorReason
timeout = bytes "timeout"

abbrev pub unauthorized : ErrorReason
unauthorized = bytes "unauthorized"

abbrev pub not_registered : ErrorReason
not_registered = bytes "not_registered"

abbrev pub validation_failed : ErrorReason
validation_failed = bytes "validation_failed"

abbrev pub idempotency_conflict : ErrorReason
idempotency_conflict = bytes "idempotency_conflict"
