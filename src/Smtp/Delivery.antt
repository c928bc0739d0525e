-- ===== src/Smtp/Delivery.antt =====
-- smtp.go: what a nil error of SMTPProvider.Send says of the calls that were made.
use provider_kit.Base.{Str, bytes, Option, none, some, ◌≡◌, ◌≢◌, refl}
use provider_kit.GoStrings.{itoa}
use provider_kit.Errors.{Error, nil, ProviderError}
use provider_kit.Errors.Chain.{normalize_error-ne_nil}
use provider_kit.Channel.{channel_email}
use provider_kit.SendResult.{SendResult}
use provider_kit.Message
use provider_kit.Message.{Message}
use provider_kit.Provider.{Context}
use provider_kit.Provider.Actions.{Outcome, returned, panicked, continue}
use provider_kit.Smtp.Config.{Address, MailLib, SmtpProvider, validate_header_value}
use provider_kit.Smtp.Mail.{parse_recipient, build_email_body}
use provider_kit.Smtp.Connection.{Network, send_email}
use provider_kit.Smtp.{
  join_host_port, fail, concluded, transmit, with_subject_checked, addressed, validated, send,
}
use provider_kit.Smtp.Transcript.{transcript, Transmitted, send_email-Transmitted}

module _ {C W D : Type 0} (net : Network C W) (lib : MailLib) (p : SmtpProvider D) where
  open p use {config}

  -- A message that was accepted by a server.
  pub record Mailed (ctx : Context) (msg : Message) (w : W) : Type 0 where
    pub to : Address
    pub from : Address
    pub valid : Message.validate msg ≡ nil
    pub accepted : parse_recipient lib msg.to ≡ (some to, nil)
    pub subject : validate_header_value (bytes "subject") msg.subject ≡ nil
    pub parsed : lib.parse_address config.from ≡ some from
    pub transmitted :
        let email = build_email_body lib config msg from to (net.new_uuid w).0 in
        let addr = join_host_port config.host (itoa config.port) in
        Transmitted net config lib from parsed ctx addr to.address email config.use_tls
          (transcript net config lib from parsed ctx addr to.address email config.use_tls
            config.use_start_tls)
          (net.new_uuid w).1

  fail-ne :
      (e : ProviderError) (w : W) (o : Option SendResult)
      → (fail net lib p e w).0 ≢ returned (o, nil)
  unfolding fail
  fail-ne e w o h = cc h

  concluded_ok :
      (ctx : Context) (msg : Message) (id : Str) (sent : Outcome Error) (w : W)
      (o : Option SendResult)
      → (continue sent (concluded net lib p ctx msg id) w).0 ≡ returned (o, nil)
      → sent ≡ returned nil
  unfolding concluded
  concluded_ok ctx msg id (returned nil) w o h = refl
  concluded_ok ctx msg id (returned err) w o h = absurd (fail-ne _ _ o h)
  concluded_ok ctx msg id panicked w o h = absurd (cc h)

  transmit-Transmitted :
      (ctx : Context) (msg : Message) (to : Address) (id : Str) (found : Option Address) (w : W)
      (o : Option SendResult)
      → (transmit net lib p ctx msg to id found w).0 ≡ returned (o, nil)
      → (from : Address) × (found ≡ some from)
        × ((send_email net config lib ctx
              (join_host_port config.host (itoa config.port))
              to.address
              (build_email_body lib config msg from to id)
              w).0
            ≡ returned nil)
  unfolding transmit
  transmit-Transmitted ctx msg to id none w o h = absurd (cc h)
  transmit-Transmitted ctx msg to id (some from) w o h =
      let sent =
        send_email net config lib ctx (join_host_port config.host (itoa config.port)) to.address
          (build_email_body lib config msg from to id) w in
      (from, refl, concluded_ok ctx msg id sent.0 sent.1 o h)

  with_subject_checked-Mailed :
      (ctx : Context) (msg : Message) (to : Address) (err : Error) (w : W) (o : Option SendResult)
      → Message.validate msg ≡ nil
      → parse_recipient lib msg.to ≡ (some to, nil)
      → validate_header_value (bytes "subject") msg.subject ≡ err
      → (with_subject_checked net lib p ctx msg to err w).0 ≡ returned (o, nil)
      → Mailed ctx msg w
  unfolding with_subject_checked
  with_subject_checked-Mailed ctx msg to nil w o valid accepted subject h =
      let uuid = net.new_uuid w in
      let (from, parsed, sent) =
        transmit-Transmitted ctx msg to uuid.0 (lib.parse_address config.from) uuid.1 o h in
      record {
        to = to;
        from = from;
        valid = valid;
        accepted = accepted;
        subject = subject;
        parsed = parsed;
        transmitted =
            send_email-Transmitted net config lib from parsed ctx _ to.address _ uuid.1 sent;
      }
  with_subject_checked-Mailed ctx msg to err w o valid accepted subject h = absurd (fail-ne _ w o h)

  addressed-Mailed :
      (ctx : Context) (msg : Message) (found : Option Address) (err : Error) (w : W)
      (o : Option SendResult)
      → Message.validate msg ≡ nil
      → parse_recipient lib msg.to ≡ (found, err)
      → (addressed net lib p ctx msg (found, err) w).0 ≡ returned (o, nil)
      → Mailed ctx msg w
  unfolding addressed
  addressed-Mailed ctx msg (some to) nil w o valid accepted h =
      with_subject_checked-Mailed ctx msg to _ w o valid accepted refl h
  addressed-Mailed ctx msg none nil w o valid accepted h = absurd (fail-ne _ w o h)
  addressed-Mailed ctx msg found err w o valid accepted h = absurd (fail-ne _ w o h)

  validated-Mailed :
      (err : Error) (ctx : Context) (msg : Message) (w : W) (o : Option SendResult)
      → Message.validate msg ≡ err
      → (validated net lib p err ctx msg w).0 ≡ returned (o, nil)
      → Mailed ctx msg w
  unfolding validated
  validated-Mailed nil ctx msg w o valid h =
      addressed-Mailed ctx msg (parse_recipient lib msg.to).0 (parse_recipient lib msg.to).1 w o
        valid refl h
  validated-Mailed err ctx msg w o valid h =
      absurd (normalize_error-ne_nil err channel_email p.name (λ q. cc q) (cc h))

  -- If Send of a message returns a nil error, the message, its recipient and its subject are valid, a
  -- connection was dialed, and every call succeeded, on it or with UseTLS on a TLS connection over it,
  -- in this order: with UseTLS first the TLS handshake, with UseStartTLS alone STARTTLS right after the greeting, and only then AUTH if there
  -- is a user name, MAIL, RCPT, DATA, the email that buildEmailBody gives, the end of the data, and QUIT.
  pub send-Mailed :
      (ctx : Context) (msg : Message) (w : W) (o : Option SendResult)
      → (send net lib p ctx (some msg) w).0 ≡ returned (o, nil)
      → Mailed ctx msg w
  unfolding send
  send-Mailed ctx msg w o h = validated-Mailed (Message.validate msg) ctx msg w o refl h
