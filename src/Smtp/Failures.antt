-- ===== src/Smtp/Failures.antt =====
-- smtp.go: how normalizeSendError classifies the failure of a send.
use provider_kit.Base.{Str, Bool-cases, true, false, ◌||◌, ◌≡◌, refl, ◌⊎◌, inl, inr}
use provider_kit.Channel.{Channel, channel_email}
use provider_kit.Errors.Reason
use provider_kit.Errors.Reason.{ErrorReason}
use provider_kit.Errors.{
  Error, nil, provider_error, wrapped, plain, canceled, deadline_exceeded, network, err_send_failed,
  err_timeout, with_provider,
}
use provider_kit.Provider.{Context, ctx_err}
use provider_kit.Smtp.Config.{MailLib, SmtpProvider}
use provider_kit.Smtp.Connection.{Network}
use provider_kit.Smtp.{
  is_deadline_exceeded, is_canceled, is_net_timeout, context_first, classified,
  normalize_send_error,
}

-- An error whose chain holds a timeout: of a context or of the network.
pub data TimesOut : Error → Type 0 where
  deadline : TimesOut deadline_exceeded
  by_network : (text : Str) → TimesOut (network true text)
  under_text : {text : Str} {err : Error} → TimesOut err → TimesOut (wrapped text err)
  under_error :
      {reason : ErrorReason} {message name : Str} {channel : Channel} {err : Error}
      → TimesOut err
      → TimesOut (provider_error reason message name channel err)

TimesOut-seen :
    (err : Error) → TimesOut err → (is_deadline_exceeded err || is_net_timeout err) ≡ true
unfolding is_deadline_exceeded is_net_timeout
TimesOut-seen nil t = elim t [ ]
TimesOut-seen (plain text) t = elim t [ ]
TimesOut-seen canceled t = elim t [ ]
TimesOut-seen deadline_exceeded t = refl
TimesOut-seen (network b message) (by_network text) = refl
TimesOut-seen (wrapped text err) (under_text t) = TimesOut-seen err t
TimesOut-seen (provider_error reason message name channel err) (under_error t) = TimesOut-seen err t

seen-TimesOut :
    (err : Error) → (is_deadline_exceeded err || is_net_timeout err) ≡ true → TimesOut err
unfolding is_deadline_exceeded is_net_timeout
seen-TimesOut nil h = cc h
seen-TimesOut (plain text) h = cc h
seen-TimesOut canceled h = cc h
seen-TimesOut deadline_exceeded h = deadline
seen-TimesOut (network true text) h = by_network text
seen-TimesOut (network false text) h = cc h
seen-TimesOut (wrapped text err) h = under_text (seen-TimesOut err h)
seen-TimesOut (provider_error reason message name channel err) h = under_error (seen-TimesOut err h)

module _ {C W D : Type 0} (net : Network C W) (lib : MailLib) (p : SmtpProvider D) where
  classified-by :
      (err : Error)
      → ((classified net lib p err).err ≡ err)
        × ((classified net lib p err).provider_name ≡ p.name)
        × ((classified net lib p err).channel ≡ channel_email)
        × ((((classified net lib p err).reason ≡ Reason.timeout) × TimesOut err)
            ⊎ (((classified net lib p err).reason ≡ Reason.send_failed) × (¬ TimesOut err)))
  unfolding classified err_timeout err_send_failed with_provider
  classified-by err = elim (Bool-cases (is_deadline_exceeded err || is_net_timeout err)) [
    | inl late ↦ rw late (refl, refl, refl, inl (refl, seen-TimesOut err late))
    | inr soon ↦ elim (Bool-cases (is_canceled err)) [
      | inl gone ↦
          rw (soon, gone) (refl, refl, refl, inr (refl, λ t. cc (TimesOut-seen err t, soon)))
      | inr other ↦
          rw (soon, other) (refl, refl, refl, inr (refl, λ t. cc (TimesOut-seen err t, soon)))
    ]
  ]

  -- The error of a failed send is attributed to the provider and the channel email, and it wraps the
  -- cause: the error of the context if it is done, or else that of the send. Its reason is timeout if
  -- the chain of the cause holds a deadline or a network timeout, and send_failed if not.
  pub normalize_send_error_lem :
      (ctx : Context) (err : Error) (w : W)
      → let e = (normalize_send_error net lib p ctx err w).0 in
        let cause = context_first (ctx_err ctx (net.now w).0) err in
        (e.err ≡ cause)
        × (e.provider_name ≡ p.name)
        × (e.channel ≡ channel_email)
        × (((e.reason ≡ Reason.timeout) × TimesOut cause)
            ⊎ ((e.reason ≡ Reason.send_failed) × (¬ TimesOut cause)))
  unfolding normalize_send_error
  normalize_send_error_lem ctx err w = classified-by (context_first (ctx_err ctx (net.now w).0) err)
