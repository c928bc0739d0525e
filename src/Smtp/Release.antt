-- ===== src/Smtp/Release.antt =====
-- smtp.go: every connection that a send opens is closed, on every path.
pub mod Steps
pub mod Dialing
use provider_kit.Base.{
  Str, bytes, ◌==◌, Bool, Bool-cases, true, false, Option, none, some, [], ◌∷◌, ◌≡◌, ◌≢◌, refl, sym,
  subst, ◌∙◌, inl, inr, ◌+ℤ◌, if◌then◌else◌,
}
use provider_kit.Errors.{Error, nil, wrapped, ProviderError}
use provider_kit.Provider.{Context, Duration}
use provider_kit.Provider.Actions.{
  Action, Outcome, returned, panicked, pure, panic, total, continue, ◌>>=◌,
}
use provider_kit.Smtp.Config.{SmtpConfig, Address, MailLib}
use provider_kit.Smtp.Connection.{
  Network, Call, set_deadline, after_func, stop_cancel, close_conn, Dialed, dialed, failed, quietly,
  earlier, guarded, with_deadline, dial, cleanup, connected, with_client, talk, over_tls, upgraded,
  send_plain, send_with_tls, send_with_start_tls, send_email, chosen,
}
use provider_kit.Message
use provider_kit.Message.{Message}
use provider_kit.Smtp.Config.{SmtpProvider}
use provider_kit.Smtp.Mail.{parse_recipient}
use provider_kit.Smtp.{
  fail, concluded, normalize_send_error, transmit, with_subject_checked, addressed, validated, send,
}
use Dialing.{Releases, send_email_releases}

module _ {C W D : Type 0} (net : Network C W) (is_open : W → C → Bool)
    (net_releases : Releases net is_open) (same : Discrete C) (lib : MailLib)
    (p : SmtpProvider D) where
  -- Every connection is open or closed as it was before.
  abbrev Restores : {A : Type 0} → Action W A → Type 0
  Restores action = (w : W) (d : C) → is_open (action w).1 d ≡ is_open w d

  fail-Restores : (e : ProviderError) → Restores (fail net lib p e)
  unfolding fail
  fail-Restores e w d = net_releases.now_same w d

  concluded-Restores :
      (ctx : Context) (msg : Message) (id : Str) (err : Error)
      → Restores (concluded net lib p ctx msg id err)
  unfolding concluded normalize_send_error
  concluded-Restores ctx msg id nil w d = net_releases.now_same w d
  concluded-Restores ctx msg id err w d =
      fail-Restores _ (net.now w).1 d ∙ net_releases.now_same w d

  continue-Restores :
      {A B : Type 0} (o : Outcome A) (f : A → Action W B)
      → ((a : A) → Restores (f a))
      → (w : W) (d : C) → is_open (continue o f w).1 d ≡ is_open w d
  continue-Restores (returned a) f restores w d = restores a w d
  continue-Restores panicked f restores w d = refl

  transmit-Restores :
      (ctx : Context) (msg : Message) (to : Address) (id : Str) (o : Option Address)
      → Restores (transmit net lib p ctx msg to id o)
  unfolding transmit
  transmit-Restores ctx msg to id none w d = refl
  transmit-Restores ctx msg to id (some from) w d =
      continue-Restores _ _ (concluded-Restores ctx msg id) _ d
      ∙ send_email_releases net is_open net_releases p.config same lib ctx _ to.address _ w d

  with_subject_checked-Restores :
      (ctx : Context) (msg : Message) (to : Address) (err : Error)
      → Restores (with_subject_checked net lib p ctx msg to err)
  unfolding with_subject_checked
  with_subject_checked-Restores ctx msg to nil w d =
      transmit-Restores ctx msg to _ (lib.parse_address p.config.from) (net.new_uuid w).1 d
      ∙ net_releases.uuid_same w d
  with_subject_checked-Restores ctx msg to err w d = fail-Restores _ w d

  addressed-Restores :
      (ctx : Context) (msg : Message) (o : Option Address) (err : Error)
      → Restores (addressed net lib p ctx msg (o, err))
  unfolding addressed
  addressed-Restores ctx msg (some to) nil = with_subject_checked-Restores ctx msg to _
  addressed-Restores ctx msg none nil = fail-Restores _
  addressed-Restores ctx msg o err = fail-Restores _

  validated-Restores :
      (err : Error) (ctx : Context) (msg : Message) → Restores (validated net lib p err ctx msg)
  unfolding validated
  validated-Restores nil ctx msg w d =
      addressed-Restores ctx msg (parse_recipient lib msg.to).0 (parse_recipient lib msg.to).1 w d
  validated-Restores err ctx msg w d = net_releases.now_same w d

  -- After Send every connection is open or closed as before: the connection that Send dialed is
  -- closed on every path, also if the deadline, the TLS handshake, STARTTLS, a command or the code
  -- itself fails, and no other is touched.
  pub send-Restores : (ctx : Context) (msg : Option Message) → Restores (send net lib p ctx msg)
  unfolding send
  send-Restores ctx none = fail-Restores _
  send-Restores ctx (some msg) = validated-Restores (Message.validate msg) ctx msg
