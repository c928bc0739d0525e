-- ===== src/Template/Texts.antt =====
-- template.go: what the texts of verification messages say.
use mathlib.Core.List.{append_cancel_left, append_cancel_right}
use provider_kit.Base.{
  ℕ, false, Str, bytes, ◌==◌, ==_iff, ==_refl, ◌^◌, ◌<◌, Option, none, some, [], ◌++◌, ◌≡◌, ◌≢◌,
  ◌⊎◌, inl, inr, refl, arith, ℤ, pos, pos_part, ltb_ℤ, if◌then◌else◌,
}
use provider_kit.GoMap.{GoMap, get, put}
use provider_kit.Channel.{Channel, channel_email, channel_sms}
use provider_kit.Errors.{nil}
use provider_kit.Message.{
  Message, validate, new_message, with_code, with_locale, with_param, with_subject, with_body,
}
use provider_kit.Template.{
  Language, chinese, japanese, korean, german, french, spanish, english, Format, sprintf, language,
  email_format, sms_format, effective_minutes, format_verification_email_with_minutes,
  format_verification_email, format_verification_sms_with_minutes, format_verification_sms,
  build_verification_message,
}
use provider_kit.GoStrings.Decimal.{
  decimal, value, value-decimal, has_digit, AreDigits, decimal-AreDigits,
}

-- A text that says the code, and after it a number of minutes in decimal: what is around the code and
-- the number has no digit, so that the number is read off whole.
pub record Says (code : Str) (minutes : ℕ) (text : Str) : Type 0 where
  pub before : Str
  pub between : Str
  pub number : Str
  pub after : Str
  pub reads : text ≡ before ++ code ++ between ++ number ++ after
  pub around : (has_digit before ≡ false) × (has_digit between ≡ false) × (has_digit after ≡ false)
  pub in_digits : AreDigits number
  pub denotes : value 0 number ≡ minutes

abbrev HasNoDigits : Format → Type 0
HasNoDigits f =
    (has_digit f.before ≡ false) × (has_digit f.between ≡ false) × (has_digit f.after ≡ false)

email_format-HasNoDigits : (l : Language) → HasNoDigits (email_format l)
unfolding email_format bytes
email_format-HasNoDigits chinese = (refl, refl, refl)
email_format-HasNoDigits japanese = (refl, refl, refl)
email_format-HasNoDigits korean = (refl, refl, refl)
email_format-HasNoDigits german = (refl, refl, refl)
email_format-HasNoDigits french = (refl, refl, refl)
email_format-HasNoDigits spanish = (refl, refl, refl)
email_format-HasNoDigits english = (refl, refl, refl)

sms_format-HasNoDigits : (l : Language) → HasNoDigits (sms_format l)
unfolding sms_format bytes
sms_format-HasNoDigits chinese = (refl, refl, refl)
sms_format-HasNoDigits japanese = (refl, refl, refl)
sms_format-HasNoDigits korean = (refl, refl, refl)
sms_format-HasNoDigits german = (refl, refl, refl)
sms_format-HasNoDigits french = (refl, refl, refl)
sms_format-HasNoDigits spanish = (refl, refl, refl)
sms_format-HasNoDigits english = (refl, refl, refl)

sprintf-Says :
    (f : Format) (code : Str) (minutes : ℕ)
    → HasNoDigits f
    → minutes < 10 ^ 19
    → Says code minutes (sprintf f code minutes)
unfolding sprintf
sprintf-Says f code minutes plain small = record {
  before = f.before;
  between = f.between;
  number = decimal minutes;
  after = f.after;
  reads = refl;
  around = plain;
  in_digits = decimal-AreDigits minutes;
  denotes = value-decimal minutes small;
}

sprintf_injective : (f : Format) (a b : Str) (n : ℕ) → sprintf f a n ≡ sprintf f b n → a ≡ b
unfolding sprintf
sprintf_injective f a b n h =
    let to_number =
      append_cancel_right (f.before ++ a ++ f.between ++ decimal n)
        (f.before ++ b ++ f.between ++ decimal n) f.after h in
    let to_between =
      append_cancel_right (f.before ++ a ++ f.between) (f.before ++ b ++ f.between) (decimal n)
        to_number in
    append_cancel_left f.before a b
      (append_cancel_right (f.before ++ a) (f.before ++ b) f.between to_between)

effective-small : (minutes : ℤ) → pos_part minutes < 10 ^ 19 → effective_minutes minutes < 10 ^ 19
effective-small minutes h = ground arith

-- Whatever the locale, the email and the SMS both say the code and then the minutes: those that were
-- asked for, or 5 in place of 0 and of a negative number, in decimal digits with no other digit in
-- the text around. (An int of 64 bits is below 10 ^ 19.)
pub format_verification-Says :
    (code locale : Str) (minutes : ℤ)
    → pos_part minutes < 10 ^ 19
    → Says code
        (if ltb_ℤ (pos 0) minutes then pos_part minutes else 5)
        (format_verification_email_with_minutes code locale minutes).1
      × Says code
          (if ltb_ℤ (pos 0) minutes then pos_part minutes else 5)
          (format_verification_sms_with_minutes code locale minutes)
unfolding format_verification_email_with_minutes format_verification_sms_with_minutes
format_verification-Says code locale minutes small = (
  sprintf-Says (email_format (language locale)) code (effective_minutes minutes)
      (email_format-HasNoDigits (language locale)) (effective-small minutes small),
  sprintf-Says (sms_format (language locale)) code (effective_minutes minutes)
      (sms_format-HasNoDigits (language locale)) (effective-small minutes small),
)

-- Two codes never give the same text: an email or an SMS for one locale and one time tells every two
-- codes apart.
pub format_verification_injective :
    (a b locale : Str) (minutes : ℤ)
    → ((format_verification_email_with_minutes a locale minutes).1
        ≡ (format_verification_email_with_minutes b locale minutes).1)
      ⊎ (format_verification_sms_with_minutes a locale minutes
          ≡ format_verification_sms_with_minutes b locale minutes)
    → a ≡ b
unfolding format_verification_email_with_minutes format_verification_sms_with_minutes
format_verification_injective a b locale minutes (inl h) =
    sprintf_injective (email_format (language locale)) a b (effective_minutes minutes) h
format_verification_injective a b locale minutes (inr h) =
    sprintf_injective (sms_format (language locale)) a b (effective_minutes minutes) h

abbrev param_of : Str → Option (GoMap Str) → Option Str
param_of key none = none
param_of key (some m) = get key m

-- A verification message: its destination, code, locale and parameter, and a text that says the code
-- and 5 minutes.
pub record IsVerification (to code locale : Str) (msg : Message) : Type 0 where
  pub valid : validate msg ≡ nil
  pub sent_to : msg.to ≡ to
  pub has_code : msg.code ≡ code
  pub has_locale : msg.locale ≡ locale
  pub has_param : param_of (bytes "code") msg.params ≡ some code
  pub says : Says code 5 msg.body

abbrev plain_message : Str → Str → Str → Message
plain_message to code locale =
    with_param (bytes "code") code (with_locale locale (with_code code (new_message to)))

email-IsVerification :
    (to code locale : Str)
    → to ≢ []
    → IsVerification to code locale (
        with_body
          (format_verification_email code locale).1
          (with_subject (format_verification_email code locale).0 (plain_message to code locale)))
unfolding format_verification_email new_message with_body with_subject with_param with_locale
    with_code validate put get
email-IsVerification to code locale present = record {
  valid = ground (arith, ==_iff to []);
  sent_to = refl;
  has_code = refl;
  has_locale = refl;
  has_param = ground (arith, ==_refl (bytes "code"));
  says = (format_verification-Says code locale (pos 5) (omega arith)).0;
}

sms-IsVerification :
    (to code locale : Str)
    → to ≢ []
    → IsVerification to code locale
        (with_body (format_verification_sms code locale) (plain_message to code locale))
unfolding format_verification_sms new_message with_body with_subject with_param with_locale
    with_code validate put get
sms-IsVerification to code locale present = record {
  valid = ground (arith, ==_iff to []);
  sent_to = refl;
  has_code = refl;
  has_locale = refl;
  has_param = ground (arith, ==_refl (bytes "code"));
  says = (format_verification-Says code locale (pos 5) (omega arith)).1;
}

-- On the channels email and SMS, a verification message to a destination that is not empty is valid;
-- it has the destination, the code, the locale and the parameter "code", and its text says the code
-- and 5 minutes.
pub build_verification_message_lem :
    (to code locale : Str) (channel : Channel)
    → to ≢ []
    → (channel ≡ channel_email) ⊎ (channel ≡ channel_sms)
    → IsVerification to code locale (build_verification_message to code locale channel)
unfolding build_verification_message bytes ◌==◌
build_verification_message_lem to code locale channel present (inl h) =
    rw h (email-IsVerification to code locale present)
build_verification_message_lem to code locale channel present (inr h) =
    rw h (sms-IsVerification to code locale present)
