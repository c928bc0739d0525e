-- ===== src/Tests/TemplateTests.antt =====
-- template.go: a code in a German email.
use provider_kit.Base.{bytes, ◌==◌, some, List, [], ◌∷◌, ◌≡◌, refl, inl, arith, pos}
use provider_kit.Channel.{channel_email}
use provider_kit.Template.{
  german, english, language, sms_format, format_verification_email_with_minutes,
  format_verification_sms, format_verification_sms_with_minutes, build_verification_message,
}
use provider_kit.GoStrings.{has_prefix}
use provider_kit.GoStrings.Decimal.{decimal}
use provider_kit.GoMap.{get}
use provider_kit.Errors.{nil}
use provider_kit.Template.{new_simple_template_renderer, render}
use provider_kit.Template.Render.{Piece, text, var, written, IsTemplate, ArePlain, render-written}
use provider_kit.Template.Texts.{
  Says, format_verification-Says, IsVerification, build_verification_message_lem,
}

austrian : language (bytes "de-AT") ≡ german
unfolding language bytes has_prefix
austrian = refl

fallback : language (bytes "pt") ≡ english
unfolding language bytes has_prefix
fallback = refl

sms_text :
    format_verification_sms (bytes "123456") (bytes "fr")
    ≡ bytes "Votre code: 123456. Valide 5 minutes."
unfolding format_verification_sms language bytes has_prefix sms_format decimal
sms_text = refl

format_verification-Says_example :
    Says
      (bytes "123456")
      15
      (format_verification_email_with_minutes (bytes "123456") (bytes "de") (pos 15)).1
    × Says
        (bytes "123456")
        15
        (format_verification_sms_with_minutes (bytes "123456") (bytes "de") (pos 15))
format_verification-Says_example =
    format_verification-Says (bytes "123456") (bytes "de") (pos 15) (omega arith)

build_verification_message_lem_example :
    IsVerification (bytes "someone@example.org") (bytes "123456") (bytes "de") (
      build_verification_message
        (bytes "someone@example.org")
        (bytes "123456")
        (bytes "de")
        channel_email)
unfolding bytes
build_verification_message_lem_example =
    build_verification_message_lem (bytes "someone@example.org") (bytes "123456") (bytes "de")
      channel_email (λ h. cc h) (inl refl)

-- Hi {{n}}, {{w}}
abbrev greeting : List Piece
greeting = text (bytes "Hi ") ∷ var (bytes "n") ∷ text (bytes ", ") ∷ var (bytes "w") ∷ []

IsTemplate-greeting : IsTemplate greeting
unfolding bytes
IsTemplate-greeting = ground arith

ArePlain-name : ArePlain ((bytes "n", bytes "Ann") ∷ [])
unfolding bytes
ArePlain-name = ground arith

render-written_example :
    render new_simple_template_renderer (written greeting) (some ((bytes "n", bytes "Ann") ∷ []))
    ≡ (bytes "Hi Ann, {{w}}", nil)
unfolding bytes get ◌==◌
render-written_example =
    render-written ((bytes "n", bytes "Ann") ∷ []) greeting IsTemplate-greeting ArePlain-name
