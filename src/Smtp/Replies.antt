-- ===== src/Smtp/Replies.antt =====
-- smtp.go: what SMTPProvider.Send returns.
use provider_kit.Base.{Str, Bool, true, false, Option, none, some, ◌≡◌, refl, inl, inr}
use provider_kit.Errors.{Error, nil, wrapped, ProviderError}
use provider_kit.Errors.Chain.{normalize_error-ne_nil}
use provider_kit.SendResult.{new_success_result, new_failure_result}
use provider_kit.Message
use provider_kit.Message.{Message}
use provider_kit.Provider.{Context, Reply, IsConsistent}
use provider_kit.Provider.Actions.{Action, returned, ◌>>=◌}
use provider_kit.Smtp.Config.{SmtpConfig, Address, MailLib, SmtpProvider, validate}
use provider_kit.Smtp.Mail.{parse_recipient}
use provider_kit.Smtp.Connection.{
  Network, Handle, raw, secured, handshake, new_client, start_tls, perform, close_client, Dialed,
  dialed, failed, deferred, quietly, tls_config, guarded, with_deadline, dial, connected,
  or_wrapped, with_client, talk, over_tls, upgraded, send_plain, send_with_tls, send_with_start_tls,
  chosen, send_email,
}
use provider_kit.Smtp.Dialogue.{send_with_client-Follows}
use provider_kit.GoStrings.{itoa}
use provider_kit.Channel.{channel_email}
use provider_kit.Smtp.Construction.{validate-parses}
use provider_kit.Smtp.Mail.{build_email_body}
use provider_kit.Smtp.{
  join_host_port, fail, concluded, transmit, with_subject_checked, addressed, validated, send,
}

module _ {C W : Type 0} (net : Network C W) (c : SmtpConfig) (lib : MailLib) (ctx : Context)
    (addr to body : Str) (from : Address) (parsed : lib.parse_address c.from ≡ some from) where
  -- It does not panic.
  abbrev Returns : Action W Error → Type 0
  Returns action = (w : W) → (err : Error) × ((action w).0 ≡ returned err)

  talk-Returns : (conn : Handle C) → Returns (talk net c lib ctx addr to body conn)
  unfolding talk
  talk-Returns conn w =
      let (out, ends, runs) =
        send_with_client-Follows (λ cmd. net.call conn (perform cmd)) lib.parse_address c from to
          body w parsed in
      (out.0, rw ends)

  or_wrapped-Returns :
      (what : Str) (next : Action W Error) (err : Error)
      → Returns next
      → Returns (or_wrapped net c what next err)
  unfolding or_wrapped
  or_wrapped-Returns what next nil returns w = returns w
  or_wrapped-Returns what next err returns w = (wrapped what err, refl)

  with_client-Returns :
      (conn : Handle C) (next : Action W Error)
      → Returns next
      → Returns (with_client net c conn next)
  unfolding with_client
  with_client-Returns conn next returns w =
      or_wrapped-Returns _ (deferred (quietly net c conn close_client) next)
        (net.call conn (new_client c.host) w).0 returns _

  over_tls-Returns : (conn : C) → Returns (over_tls net c lib ctx addr to body conn)
  unfolding over_tls
  over_tls-Returns conn w =
      let tls_conn = secured (tls_config net c) conn in
      or_wrapped-Returns _ _ (net.call tls_conn (handshake ctx) w).0
        (with_client-Returns tls_conn _ (talk-Returns tls_conn)) _

  upgraded-Returns : (conn : Handle C) → Returns (upgraded net c lib ctx addr to body conn)
  unfolding upgraded
  upgraded-Returns conn w =
      or_wrapped-Returns _ _ (net.call conn (start_tls (tls_config net c)) w).0 (talk-Returns conn)
        _

  guarded_returns :
      (conn : C) (err : Error) (w : W)
      → (d : Dialed C) × ((guarded net c ctx conn err w).0 ≡ returned d)
  unfolding guarded
  guarded_returns conn nil w = (dialed conn, refl)
  guarded_returns conn err w = (failed err, refl)

  with_deadline_returns :
      (d : Dialed C) (w : W) → (e : Dialed C) × ((with_deadline net c ctx d w).0 ≡ returned e)
  unfolding with_deadline
  with_deadline_returns (failed err) w = (failed err, refl)
  with_deadline_returns (dialed conn) w = guarded_returns conn _ _

  connected-Returns :
      (what : Str) (use_conn : C → Action W Error)
      → ((conn : C) → Returns (use_conn conn))
      → (d : Dialed C) → Returns (connected net c what use_conn d)
  unfolding connected
  connected-Returns what use_conn returns (failed err) w = (wrapped what err, refl)
  connected-Returns what use_conn returns (dialed conn) w = returns conn w

  dialing-Returns :
      (what : Str) (use_conn : C → Action W Error)
      → ((conn : C) → Returns (use_conn conn))
      → Returns (do d ← dial net c ctx addr; connected net c what use_conn d)
  unfolding dial
  dialing-Returns what use_conn returns w =
      let dialing = net.dial_context ctx addr c.timeout w in
      let found = with_deadline_returns dialing.0 dialing.1 in
      rw found.1 (
        connected-Returns what use_conn returns found.0
          (with_deadline net c ctx dialing.0 dialing.1).1)

  chosen-Returns : (tls start : Bool) → Returns (chosen net c lib ctx addr to body tls start)
  unfolding chosen send_plain send_with_tls send_with_start_tls
  chosen-Returns true start = dialing-Returns _ _ over_tls-Returns
  chosen-Returns false true =
      dialing-Returns _ _ (λ conn. with_client-Returns (raw conn) _ (upgraded-Returns (raw conn)))
  chosen-Returns false false =
      dialing-Returns _ _ (λ conn. with_client-Returns (raw conn) _ (talk-Returns (raw conn)))

  send_email-Returns : Returns (send_email net c lib ctx addr to body)
  unfolding send_email
  send_email-Returns = chosen-Returns c.use_tls c.use_start_tls

module _ {C W D : Type 0} (net : Network C W) (lib : MailLib) (p : SmtpProvider D) where
  abbrev AreConsistent : Action W Reply → Type 0
  AreConsistent action = (w : W) → IsConsistent (action w).0

  fail_consistent : (e : ProviderError) → AreConsistent (fail net lib p e)
  unfolding fail new_failure_result
  fail_consistent e w = inr (refl, λ h. cc h)

  concluded_consistent :
      (ctx : Context) (msg : Message) (id : Str) (err : Error)
      → AreConsistent (concluded net lib p ctx msg id err)
  unfolding concluded new_success_result
  concluded_consistent ctx msg id nil w = inl (refl, refl)
  concluded_consistent ctx msg id err w = fail_consistent _ _

  transmit_consistent :
      (ctx : Context) (msg : Message) (to : Address) (id : Str) (from : Address)
      → lib.parse_address p.config.from ≡ some from
      → AreConsistent (transmit net lib p ctx msg to id (some from))
  unfolding transmit
  transmit_consistent ctx msg to id from parsed w =
      let addr = join_host_port p.config.host (itoa p.config.port) in
      let email = build_email_body lib p.config msg from to id in
      let found = send_email-Returns net p.config lib ctx addr to.address email from parsed w in
      rw found.1 (
        concluded_consistent ctx msg id found.0
          (send_email net p.config lib ctx addr to.address email w).1)

  with_subject_checked_consistent :
      (ctx : Context) (msg : Message) (to : Address) (err : Error) (from : Address)
      → lib.parse_address p.config.from ≡ some from
      → AreConsistent (with_subject_checked net lib p ctx msg to err)
  unfolding with_subject_checked
  with_subject_checked_consistent ctx msg to nil from parsed w =
      rw parsed (transmit_consistent ctx msg to (net.new_uuid w).0 from parsed (net.new_uuid w).1)
  with_subject_checked_consistent ctx msg to err from parsed w = fail_consistent _ w

  addressed_consistent :
      (ctx : Context) (msg : Message) (o : Option Address) (err : Error) (from : Address)
      → lib.parse_address p.config.from ≡ some from
      → AreConsistent (addressed net lib p ctx msg (o, err))
  unfolding addressed
  addressed_consistent ctx msg (some to) nil from parsed w =
      with_subject_checked_consistent ctx msg to _ from parsed w
  addressed_consistent ctx msg none nil from parsed w = fail_consistent _ w
  addressed_consistent ctx msg o err from parsed w = fail_consistent _ w

  validated_consistent :
      (err : Error) (ctx : Context) (msg : Message) (from : Address)
      → lib.parse_address p.config.from ≡ some from
      → AreConsistent (validated net lib p err ctx msg)
  unfolding validated new_failure_result
  validated_consistent nil ctx msg from parsed w =
      addressed_consistent ctx msg (parse_recipient lib msg.to).0 (parse_recipient lib msg.to).1
        from parsed w
  validated_consistent err ctx msg from parsed w =
      inr (refl, normalize_error-ne_nil err channel_email p.name (λ h. cc h))

  send_consistent :
      (from : Address)
      → lib.parse_address p.config.from ≡ some from
      → (ctx : Context) (msg : Option Message) → AreConsistent (send net lib p ctx msg)
  unfolding send
  send_consistent from parsed ctx none w = fail_consistent _ w
  send_consistent from parsed ctx (some msg) w =
      validated_consistent (Message.validate msg) ctx msg from parsed w

  -- Send of a provider whose configuration is valid never panics, not even on a nil message or with a
  -- network on which every call fails: it returns a result, and the result is OK exactly if the error
  -- is nil.
  pub send_valid-IsConsistent :
      (ctx : Context) (msg : Option Message) (w : W)
      → validate lib p.config ≡ nil
      → IsConsistent (send net lib p ctx msg w).0
  send_valid-IsConsistent ctx msg w valid =
      let (from, parsed) = validate-parses lib p.config valid in
      send_consistent from parsed ctx msg w
