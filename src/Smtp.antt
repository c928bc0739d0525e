-- ===== src/Smtp.antt =====
-- smtp.go: SMTPProvider.Send.
pub mod Config
pub mod Mail
pub mod Client
pub mod Dialogue
pub mod Connection
pub mod Construction
pub mod Headers
pub mod Release
pub mod Failures
pub mod Replies
pub mod Transcript
pub mod Delivery
use provider_kit.Base.{
  Str, bytes, ◌==◌, Bool, true, false, ◌||◌, Option, none, some, [], ◌∷◌, ◌++◌, if◌then◌else◌,
}
use provider_kit.GoStrings.{contains_byte, itoa}
use provider_kit.Channel.{channel_email}
use provider_kit.Errors.{
  Error, nil, provider_error, wrapped, plain, canceled, deadline_exceeded, network, ProviderError,
  to_error, error_text, err_send_failed, err_timeout, err_invalid_destination,
  err_validation_failed, with_provider, with_error, normalize_error,
}
use provider_kit.SendResult.{SendResult, Time, new_success_result, new_failure_result}
use provider_kit.Message
use provider_kit.Message.{Message}
use provider_kit.Provider.{Context, Reply, Provider, ctx_err}
use provider_kit.Provider.Actions.{
  Action, Outcome, returned, panicked, pure, panic, total, continue, ◌>>=◌,
}
use provider_kit.Registry.{ProviderFactory, made}
use Config.{
  new_smtp_provider_from_map, SmtpConfig, Address, MailLib, SmtpProvider, validate,
  validate_header_value,
}
use Mail.{parse_recipient, build_email_body}
use Connection.{Network, send_email}

-- errors.Is(err, context.DeadlineExceeded) and errors.Is(err, context.Canceled)
unfoldable pub is_deadline_exceeded : Error → Bool
is_deadline_exceeded deadline_exceeded = true
is_deadline_exceeded (wrapped text err) = is_deadline_exceeded err
is_deadline_exceeded (provider_error reason message name channel err) = is_deadline_exceeded err
is_deadline_exceeded _ = false

unfoldable pub is_canceled : Error → Bool
is_canceled canceled = true
is_canceled (wrapped text err) = is_canceled err
is_canceled (provider_error reason message name channel err) = is_canceled err
is_canceled _ = false

-- errors.As(err, &netErr) && netErr.Timeout(); context.DeadlineExceeded is a net.Error too.
unfoldable pub is_net_timeout : Error → Bool
is_net_timeout (network timed_out text) = timed_out
is_net_timeout deadline_exceeded = true
is_net_timeout (wrapped text err) = is_net_timeout err
is_net_timeout (provider_error reason message name channel err) = is_net_timeout err
is_net_timeout _ = false

-- net.JoinHostPort
unfoldable pub join_host_port : Str → Str → Str
unfolding contains_byte
join_host_port host port =
    if contains_byte b':' host
    then bytes "[" ++ (host ++ (bytes "]:" ++ port))
    else host ++ (bytes ":" ++ port)

-- A nil error of the context gives way to the error of the send.
abbrev pub context_first : Error → Error → Error
context_first nil err = err
context_first ctx_error err = ctx_error

module _ {C W D : Type 0} (net : Network C W) (lib : MailLib) (p : SmtpProvider D) where
  -- .WithProvider(p.name, ChannelEmail)
  abbrev attributed : ProviderError → ProviderError
  attributed e = with_provider e p.name channel_email

  -- The ProviderError for `err`.
  unfoldable pub classified : Error → ProviderError
  unfolding is_deadline_exceeded is_canceled is_net_timeout
  classified err =
      if is_deadline_exceeded err || is_net_timeout err
      then attributed (err_timeout (bytes "SMTP send timed out") err)
      else if is_canceled err
      then attributed (err_send_failed (bytes "SMTP send canceled") err)
      else attributed (err_send_failed (bytes "failed to send email") err)

  unfoldable pub normalize_send_error : Context → Error → W → ProviderError × W
  unfolding classified
  normalize_send_error ctx err w =
      let (now, w') = net.now w in (classified (context_first (ctx_err ctx now) err), w')

  -- return NewFailureResult(p.name, ChannelEmail, err), err
  unfoldable pub fail : ProviderError → Action W Reply
  fail e = do
    now ← total net.now
    pure (some (new_failure_result now p.name channel_email (some e)), to_error e)

  abbrev result_message_id : Message → Str → Str
  result_message_id msg id = if msg.idempotency_key == [] then id else msg.idempotency_key

  -- What follows the send.
  unfoldable pub concluded : Context → Message → Str → Error → Action W Reply
  unfolding normalize_send_error
  concluded ctx msg id nil = do
    now ← total net.now
    pure (some (new_success_result now p.name channel_email (result_message_id msg id)), nil)
  concluded ctx msg id err = do e ← total (normalize_send_error ctx err); fail e

  -- buildEmailBody reads through a nil pointer if From does not parse.
  unfoldable pub transmit : Context → Message → Address → Str → Option Address → Action W Reply
  unfolding build_email_body send_email
  transmit ctx msg to id none = panic
  transmit ctx msg to id (some from) = do
    err ←
        send_email net p.config lib ctx (join_host_port p.config.host (itoa p.config.port))
          to.address (build_email_body lib p.config msg from to id)
    concluded ctx msg id err

  -- From validateHeaderValue on.
  unfoldable pub with_subject_checked : Context → Message → Address → Error → Action W Reply
  unfolding transmit
  with_subject_checked ctx msg to nil = do
    id ← total net.new_uuid
    transmit ctx msg to id (lib.parse_address p.config.from)
  with_subject_checked ctx msg to err = fail (attributed (err_validation_failed (error_text err)))

  -- From parseRecipient on.
  unfoldable pub addressed : Context → Message → Option Address × Error → Action W Reply
  unfolding with_subject_checked validate_header_value
  addressed ctx msg (some to, nil) =
      with_subject_checked ctx msg to (validate_header_value (bytes "subject") msg.subject)
  addressed ctx msg (to, err) = fail (
      with_error (attributed (err_invalid_destination (bytes "recipient email address is invalid")))
        err)

  -- What follows `msg.Validate()`; its error is written through by NormalizeError.
  unfoldable pub validated : Error → Context → Message → Action W Reply
  unfolding addressed parse_recipient
  validated nil ctx msg = addressed ctx msg (parse_recipient lib msg.to)
  validated err ctx msg = do
    now ← total net.now
    let (e, err') = normalize_error err channel_email p.name
    pure (some (new_failure_result now p.name channel_email e), err')

  -- (*SMTPProvider).Send
  unfoldable pub send : Context → Option Message → Action W Reply
  unfolding validated
  send ctx none = fail (attributed (err_validation_failed (bytes "message is required")))
  send ctx (some msg) = validated (Message.validate msg) ctx msg

  -- The provider interface.
  unfoldable pub smtp_provider : Provider W
  smtp_provider = record {
    send = send;
    channel = channel_email;
    name = p.name;
    validate = validate lib p.config;
  }

module _ {C W : Type 0} (net : Network C W) (lib : MailLib) where
  unfoldable pub smtp_provider_factory : ProviderFactory W
  unfolding new_smtp_provider_from_map smtp_provider
  smtp_provider_factory config = pure (
      made (λ (p : SmtpProvider (Unit {0})). smtp_provider net lib p)
        (new_smtp_provider_from_map lib config))
