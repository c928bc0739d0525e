-- ===== src/Smtp/Release/Steps.antt =====
-- smtp.go: what holds across every call on a connection holds across all that is done with it.
use provider_kit.Base.{Str, ◌==◌, Bool-cases, Option, none, some, [], ◌≡◌, refl, inl, inr}
use provider_kit.Errors.{Error, nil}
use provider_kit.Provider.{Context}
use provider_kit.Provider.Actions.{Action}
use provider_kit.Smtp.Config.{SmtpConfig, Address, MailLib}
use provider_kit.Smtp.Client.{
  Command, mail, rcpt, start_data, write, close_data, quit, checked, command, transfer, envelope,
  send_with_client,
}
use provider_kit.Smtp.Connection.{
  Network, Handle, secured, base, Call, handshake, new_client, start_tls, perform, close_client,
  deferred, quietly, tls_config, or_wrapped, with_client, talk, over_tls, upgraded,
}

module _ {C W : Type 0} (net : Network C W) (c : SmtpConfig) (lib : MailLib) (conn : Handle C)
    (R : W → W → Type 0) (stays : (w : W) → R w w) (follows : (u v w : W) → R u v → R v w → R u w)
    (calls : (call : Call) (w : W) → R w (net.call conn call w).1) where
  abbrev pub Keeps : {A : Type 0} → Action W A → Type 0
  Keeps action = (w : W) → R w (action w).1

  perform_on : Command → W → Error × W
  perform_on cmd = net.call conn (perform cmd)

  checked-Keeps :
      (what : Str) (err : Error) (next : Action W Error)
      → Keeps next
      → Keeps (checked (λ cmd. net.call conn (perform cmd)) what err next)
  unfolding checked
  checked-Keeps what nil next keeps = keeps
  checked-Keeps what err next keeps = stays

  command-Keeps :
      (cmd : Command) (what : Str) (next : Action W Error)
      → Keeps next
      → Keeps (command (λ cmd. net.call conn (perform cmd)) cmd what next)
  unfolding command
  command-Keeps cmd what next keeps w =
      follows w (net.call conn (perform cmd) w).1 _ (calls (perform cmd) w) (
        checked-Keeps what (net.call conn (perform cmd) w).0 next keeps
          (net.call conn (perform cmd) w).1)

  transfer-Keeps : (body : Str) → Keeps (transfer (λ cmd. net.call conn (perform cmd)) body)
  unfolding transfer
  transfer-Keeps body =
      command-Keeps start_data _ _
        (command-Keeps (write body) _ _ (command-Keeps close_data _ _ (calls (perform quit))))

  envelope-Keeps :
      (o : Option Address) (to body : Str)
      → Keeps (envelope (λ cmd. net.call conn (perform cmd)) lib.parse_address c o to body)
  unfolding envelope
  envelope-Keeps none to body = stays
  envelope-Keeps (some from) to body =
      command-Keeps (mail from.address) _ _ (command-Keeps (rcpt to) _ _ (transfer-Keeps body))

  pub talk-Keeps :
      (ctx : Context) (addr to body : Str) → Keeps (talk net c lib ctx addr to body conn)
  unfolding talk send_with_client
  talk-Keeps ctx addr to body w = elim (Bool-cases (c.username == [])) [
    | inl anonymous ↦ rw anonymous (envelope-Keeps (lib.parse_address c.from) to body w)
    | inr named ↦
        rw named (command-Keeps _ _ _ (envelope-Keeps (lib.parse_address c.from) to body) w)
  ]

  or_wrapped-Keeps :
      (what : Str) (next : Action W Error) (err : Error)
      → Keeps next
      → Keeps (or_wrapped net c what next err)
  unfolding or_wrapped
  or_wrapped-Keeps what next nil keeps = keeps
  or_wrapped-Keeps what next err keeps = stays

  pub with_client-Keeps : (next : Action W Error) → Keeps next → Keeps (with_client net c conn next)
  unfolding with_client
  with_client-Keeps next keeps w =
      let opened = net.call conn (new_client c.host) w in
      follows w opened.1 _ (calls (new_client c.host) w) (
        or_wrapped-Keeps _ (deferred (quietly net c conn close_client) next) opened.0
          (λ v. follows v (next v).1 _ (keeps v) (calls close_client (next v).1)) opened.1)

  pub upgraded-Keeps :
      (ctx : Context) (addr to body : Str) → Keeps (upgraded net c lib ctx addr to body conn)
  unfolding upgraded
  upgraded-Keeps ctx addr to body w =
      let secured = net.call conn (start_tls (tls_config net c)) w in
      follows w secured.1 _ (calls (start_tls (tls_config net c)) w)
        (or_wrapped-Keeps _ _ secured.0 (talk-Keeps ctx addr to body) secured.1)

module _ {C W : Type 0} (net : Network C W) (c : SmtpConfig) (lib : MailLib) (conn : C)
    (R : W → W → Type 0) (stays : (w : W) → R w w) (follows : (u v w : W) → R u v → R v w → R u w)
    (calls : (over : Handle C) (call : Call) (w : W)
      → base over ≡ conn
      → R w (net.call over call w).1) where
  pub over_tls-Keeps :
      (ctx : Context) (addr to body : Str) (w : W)
      → R w (over_tls net c lib ctx addr to body conn w).1
  unfolding over_tls
  over_tls-Keeps ctx addr to body w =
      let tls_conn = secured (tls_config net c) conn in
      let on_tls : (call : Call) (v : W) → R v (net.call tls_conn call v).1 =
        λ call v. calls tls_conn call v refl in
      let shaken = net.call tls_conn (handshake ctx) w in
      follows w shaken.1 _ (on_tls (handshake ctx) w) (
        or_wrapped-Keeps net c lib tls_conn R stays follows on_tls _ _ shaken.0
          (with_client-Keeps net c lib tls_conn R stays follows on_tls _
            (talk-Keeps net c lib tls_conn R stays follows on_tls ctx addr to body))
          shaken.1)
