-- ===== src/Template.antt =====
-- template.go: the texts of verification messages. A format of fmt.Sprintf with one %s and one %d is
-- the three pieces of text around them.
pub mod Texts
pub mod Render
use provider_kit.Base.{
  ℕ, Str, bytes, nat_eq, ◌==◌, Bool, true, false, ◌&&◌, Option, none, some, List, [], ◌∷◌, ◌++◌, ℤ,
  pos, pos_part, ltb_ℤ, if◌then◌else◌,
}
use provider_kit.Channel.{Channel, channel_email, channel_sms}
use provider_kit.Message.{
  Message, new_message, with_code, with_locale, with_param, with_subject, with_body,
}
use provider_kit.GoMap.{GoMap}
use provider_kit.GoStrings.{has_prefix}
use provider_kit.GoStrings.Replace.{replace_all}
use provider_kit.Errors.{Error, nil}
use provider_kit.GoStrings.Decimal.{decimal}

-- The cases of the two switches on the locale.
pub data Language : Type 0 where
  chinese : Language
  japanese : Language
  korean : Language
  german : Language
  french : Language
  spanish : Language
  english : Language

unfoldable pub language : Str → Language
language locale =
    if has_prefix locale (bytes "zh")
    then chinese
    else if has_prefix locale (bytes "ja")
    then japanese
    else if has_prefix locale (bytes "ko")
    then korean
    else if has_prefix locale (bytes "de")
    then german
    else if has_prefix locale (bytes "fr")
    then french
    else if has_prefix locale (bytes "es")
    then spanish
    else english

-- A format: the text before %s, the text between, and the text after %d.
pub record Format : Type 0 where
  pub before : Str
  pub between : Str
  pub after : Str

unfoldable pub sprintf : Format → Str → ℕ → Str
sprintf f code minutes = f.before ++ code ++ f.between ++ decimal minutes ++ f.after

abbrev format : Str → Str → Str → Format
format before between after = record { before = before; between = between; after = after }

unfoldable pub email_subject : Language → Str
email_subject chinese = bytes "验证码"
email_subject japanese = bytes "認証コード"
email_subject korean = bytes "인증 코드"
email_subject german = bytes "Verifizierungscode"
email_subject french = bytes "Code de vérification"
email_subject spanish = bytes "Código de verificación"
email_subject english = bytes "Verification Code"

unfoldable pub email_format : Language → Format
email_format chinese = format (bytes "您的验证码是：") (bytes "\n\n此验证码将在") (bytes "分钟后过期。")
email_format japanese = format (bytes "認証コード：") (bytes "\n\nこのコードは") (bytes "分後に期限切れになります。")
email_format korean = format (bytes "인증 코드: ") (bytes "\n\n이 코드는 ") (bytes "분 후에 만료됩니다.")
email_format german =
    format (bytes "Ihr Verifizierungscode lautet: ") (bytes "\n\nDieser Code läuft in ")
      (bytes " Minuten ab.")
email_format french =
    format (bytes "Votre code de vérification est : ") (bytes "\n\nCe code expire dans ")
      (bytes " minutes.")
email_format spanish =
    format (bytes "Su código de verificación es: ") (bytes "\n\nEste código expirará en ")
      (bytes " minutos.")
email_format english =
    format (bytes "Your verification code is: ") (bytes "\n\nThis code will expire in ")
      (bytes " minutes.")

unfoldable pub sms_format : Language → Format
sms_format chinese = format (bytes "您的验证码是：") (bytes "，") (bytes "分钟内有效。")
sms_format japanese = format (bytes "認証コード：") (bytes "、") (bytes "分間有効です。")
sms_format korean = format (bytes "인증 코드: ") (bytes ", ") (bytes "분간 유효합니다.")
sms_format german =
    format (bytes "Ihr Verifizierungscode: ") (bytes ". Gültig für ") (bytes " Minuten.")
sms_format french = format (bytes "Votre code: ") (bytes ". Valide ") (bytes " minutes.")
sms_format spanish = format (bytes "Su código: ") (bytes ". Válido por ") (bytes " minutos.")
sms_format english =
    format (bytes "Your verification code is: ") (bytes ". Valid for ") (bytes " minutes.")

-- if minutes <= 0 { minutes = 5 }
abbrev pub effective_minutes : ℤ → ℕ
effective_minutes minutes = if ltb_ℤ (pos 0) minutes then pos_part minutes else 5

-- The subject and the body.
unfoldable pub format_verification_email_with_minutes : Str → Str → ℤ → Str × Str
unfolding sprintf
format_verification_email_with_minutes code locale minutes = (
  email_subject (language locale),
  sprintf (email_format (language locale)) code (effective_minutes minutes),
)

unfoldable pub format_verification_email : Str → Str → Str × Str
unfolding format_verification_email_with_minutes
format_verification_email code locale = format_verification_email_with_minutes code locale (pos 5)

unfoldable pub format_verification_sms_with_minutes : Str → Str → ℤ → Str
unfolding sprintf
format_verification_sms_with_minutes code locale minutes =
    sprintf (sms_format (language locale)) code (effective_minutes minutes)

unfoldable pub format_verification_sms : Str → Str → Str
unfolding format_verification_sms_with_minutes
format_verification_sms code locale = format_verification_sms_with_minutes code locale (pos 5)

-- The switch on the channel.
unfoldable pub with_text : Channel → Str → Str → Message → Message
unfolding format_verification_email format_verification_sms
with_text channel code locale msg =
    if channel == channel_email
    then with_body (format_verification_email code locale).1
        (with_subject (format_verification_email code locale).0 msg)
    else if channel == channel_sms
    then with_body (format_verification_sms code locale) msg
    else msg

unfoldable pub build_verification_message : Str → Str → Str → Channel → Message
unfolding with_text
build_verification_message to code locale channel =
    with_text channel code locale
      (with_param (bytes "code") code (with_locale locale (with_code code (new_message to))))

-- SimpleTemplateRenderer
pub record SimpleTemplateRenderer : Type 0 where
  pub left_delim : Str
  pub right_delim : Str

unfoldable pub new_simple_template_renderer : SimpleTemplateRenderer
new_simple_template_renderer = record { left_delim = bytes "{{"; right_delim = bytes "}}" }

unfoldable pub with_delimiters : Str → Str → SimpleTemplateRenderer → SimpleTemplateRenderer
with_delimiters left right r = record r { left_delim = left; right_delim = right }

-- The loop over `params`, in the order of its range.
unfoldable pub replace_params : SimpleTemplateRenderer → Str → GoMap Str → Str
replace_params r result [] = result
replace_params r result ((key, value) ∷ params) =
    replace_params r (replace_all result (r.left_delim ++ key ++ r.right_delim) value) params

-- A nil map has an empty range; the error is always nil.
unfoldable pub render : SimpleTemplateRenderer → Str → Option (GoMap Str) → Str × Error
unfolding replace_params
render r template none = (template, nil)
render r template (some params) = (replace_params r template params, nil)
