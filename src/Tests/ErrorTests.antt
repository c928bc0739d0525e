-- ===== src/Tests/ErrorTests.antt =====
-- errors.go on concrete errors.
use provider_kit.Base.{bytes, ◌≡◌, refl}
use provider_kit.Channel.{channel_email}
use provider_kit.Errors.{Error, wrapped, ProviderError, to_error, error_text}
use provider_kit.Errors.Chain.{Normalizes, normalize_error_total}
use provider_kit.Tests.Samples.{timeout_error}

abbrev wrapped_timeout : Error
wrapped_timeout = wrapped (bytes "RCPT TO failed") (to_error timeout_error)

text_of_provider_error :
    error_text (to_error (record timeout_error { channel = bytes "sms" }))
    ≡ bytes "[sms] timeout: slow"
unfolding error_text bytes
text_of_provider_error = refl

normalize_error_total_example :
    (e : ProviderError) × Normalizes wrapped_timeout channel_email (bytes "smtp") e
normalize_error_total_example =
    normalize_error_total wrapped_timeout channel_email (bytes "smtp") (λ e. cc e)
