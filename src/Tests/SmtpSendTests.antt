-- ===== src/Tests/SmtpSendTests.antt =====
-- smtp.go: a message through the one socket.
use provider_kit.Base.{Str, bytes, ◌==◌, Bool, true, false, some, [], ◌∷◌, ◌≡◌, ◌⊎◌, refl, pos}
use native.Mathlib.Decide.{ℕ_discrete}
use provider_kit.GoStrings.{contains_any, contains_byte, is_trimmable}
use provider_kit.GoStrings.Utf8.{valid_string}
use provider_kit.Channel.{channel_email}
use provider_kit.Errors.Reason
use provider_kit.Errors.{nil, network}
use provider_kit.SendResult.{new_success_result}
use provider_kit.Message
use provider_kit.Provider.{Provider, ctx_err, IsConsistent}
use provider_kit.Smtp.Config.{
  validate, validate_rest, contains_header_control, default_smtp_config, new_smtp_provider,
}
use provider_kit.Smtp.Mail.{parse_recipient, build_email_body}
use provider_kit.Smtp.Headers.{read_headers, email_lines, read_headers-build_email_body}
use provider_kit.Smtp.Construction.{IsReady, new_smtp_provider-IsReady}
use provider_kit.Smtp.Release.{send-Restores}
use provider_kit.Smtp.Replies.{send_valid-IsConsistent}
use provider_kit.Smtp.Delivery.{Mailed, send-Mailed}
use provider_kit.Smtp.Failures.{TimesOut, normalize_send_error_lem}
use provider_kit.Smtp.{concluded, normalize_send_error, send}
use provider_kit.GoMap.{GoMap, get, put}
use provider_kit.Registry.{new_registry, create_provider, register_factory}
use provider_kit.Registry.Sends.{Serves}
use provider_kit.Smtp.{smtp_provider, smtp_provider_factory}
use provider_kit.Smtp.Config.{smtp_config_from_map, new_smtp_provider_from_map}
use provider_kit.Composition.Factories.{with_factory, smtp_provider_factory-Serves}
use provider_kit.Tests.Samples.{background}
use provider_kit.Tests.SmtpSamples.{
  mail_lib, mail_lib-WritesClean, one_socket, one_socket-Releases, is_up, config, provider, sender,
  greeting,
}

config_valid : validate mail_lib config ≡ nil
unfolding validate validate_rest contains_header_control contains_any contains_byte is_trimmable
    default_smtp_config bytes ◌==◌ valid_string
config_valid = refl

read_headers-build_email_body_example :
    read_headers [] (
      build_email_body mail_lib config greeting sender
        (record { display_name = []; address = bytes "x@y" })
        (bytes "u1"))
    ≡ (
      email_lines mail_lib config greeting sender
          (record { display_name = []; address = bytes "x@y" })
          (bytes "u1"),
      bytes "hello",
    )
unfolding parse_recipient contains_header_control contains_any contains_byte bytes ◌==◌
    default_smtp_config
read_headers-build_email_body_example =
    read_headers-build_email_body mail_lib config greeting sender
      (record { display_name = []; address = bytes "x@y" }) (bytes "u1") mail_lib-WritesClean
      config_valid refl refl ((λ h. cc h), (λ h. cc h), ((λ h. cc h), (λ h. cc h), tt))

new_smtp_provider-IsReady_example : IsReady mail_lib config × (provider.name ≡ bytes "smtp")
unfolding new_smtp_provider contains_header_control contains_any contains_byte is_trimmable
    default_smtp_config bytes ◌==◌ valid_string validate_rest
new_smtp_provider-IsReady_example = new_smtp_provider-IsReady mail_lib (some config) provider refl

send-Restores_example :
    is_up (send one_socket mail_lib provider background (some greeting) false).1 0 ≡ is_up false 0
send-Restores_example =
    send-Restores one_socket is_up one_socket-Releases ℕ_discrete mail_lib provider background
      (some greeting) false 0

send_valid-IsConsistent_example :
    IsConsistent (send one_socket mail_lib provider background (some greeting) true).0
send_valid-IsConsistent_example =
    send_valid-IsConsistent one_socket mail_lib provider background (some greeting) true
      config_valid

normalize_send_error_lem_example :
    let e =
      (normalize_send_error one_socket mail_lib provider background
        (network true (bytes "i/o timeout"))
        true).0 in
    let cause = network true (bytes "i/o timeout") in
    (e.err ≡ cause)
    × (e.provider_name ≡ bytes "smtp")
    × (e.channel ≡ channel_email)
    × (((e.reason ≡ Reason.timeout) × TimesOut cause)
        ⊎ ((e.reason ≡ Reason.send_failed) × (¬ TimesOut cause)))
unfolding ctx_err
normalize_send_error_lem_example =
    normalize_send_error_lem one_socket mail_lib provider background
      (network true (bytes "i/o timeout")) true

send-Mailed_example : Mailed one_socket mail_lib provider background greeting false
unfolding send bytes Message.validate ◌==◌ valid_string default_smtp_config concluded
send-Mailed_example =
    send-Mailed one_socket mail_lib provider background greeting false
      (some (new_success_result (pos 0) (bytes "smtp") channel_email (bytes "k1"))) refl

abbrev settings : GoMap Str
settings = (bytes "host", bytes "mail") ∷ (bytes "from", bytes "a@b") ∷ []

abbrev made_provider : Provider Bool
made_provider =
    smtp_provider one_socket mail_lib
      (record provider { config = smtp_config_from_map mail_lib settings })

smtp_provider_factory-Serves_example :
    (made_provider.channel ≡ channel_email)
    × Serves made_provider
        (with_factory (bytes "mail") (smtp_provider_factory one_socket mail_lib) new_registry)
unfolding smtp_provider smtp_provider_factory new_smtp_provider_from_map new_smtp_provider
    smtp_config_from_map contains_header_control contains_any contains_byte is_trimmable
    default_smtp_config bytes ◌==◌ valid_string validate_rest create_provider register_factory get
    put new_registry
smtp_provider_factory-Serves_example =
    smtp_provider_factory-Serves one_socket mail_lib (bytes "mail") settings new_registry
      made_provider false false (λ e. cc e) refl
