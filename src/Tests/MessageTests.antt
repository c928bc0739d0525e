-- ===== src/Tests/MessageTests.antt =====
-- message.go on concrete messages.
use provider_kit.Base.{bytes, ◌≡◌, refl}
use provider_kit.Message.Mask.{mask_destination}
use provider_kit.Message.Masking.{Masked, mask_destination-Masked}
use provider_kit.Tests.Samples.{message}

mask_email : mask_destination (bytes "someone@example.org") ≡ bytes "so***@example.org"
unfolding mask_destination bytes
mask_email = refl

mask_phone : mask_destination (bytes "+4915112345678") ≡ bytes "***5678"
unfolding mask_destination bytes
mask_phone = refl

mask_destination-Masked_example : Masked message.to (mask_destination message.to)
mask_destination-Masked_example = mask_destination-Masked message.to
