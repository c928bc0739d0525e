-- ===== src/Smtp/Transcript.antt =====
-- smtp.go: the calls on a connection when sending over it returns a nil error.
use provider_kit.Base.{Str, Bool, true, false, some, List, [], ◌∷◌, map, ◌≡◌, ◌≢◌, refl, inl, inr}
use provider_kit.Errors.{Error, nil}
use provider_kit.Provider.{Context}
use provider_kit.Provider.Actions.{Action, Outcome, returned, panicked, continue}
use provider_kit.Smtp.Config.{SmtpConfig, Address, MailLib}
use provider_kit.Smtp.Client.{Command}
use provider_kit.Smtp.Connection.{
  Network, TlsConfig, version_tls12, Handle, raw, secured, Call, handshake, new_client, start_tls,
  perform, close_client, Dialed, dialed, failed, deferred, quietly, tls_config, dial, connected,
  or_wrapped, with_client, talk, over_tls, upgraded, send_plain, send_with_tls, send_with_start_tls,
  chosen, send_email,
}
use provider_kit.Smtp.Dialogue.{script, explain, Runs, send_with_client-Follows}

module _ {C W : Type 0} (net : Network C W) where
  -- Calls on a connection, one after the other, none of which fails.
  abbrev pub Performed : Handle C → List Call → W → W → Type 0
  Performed conn [] w w' = w ≡ w'
  Performed conn (call ∷ calls) w w' =
      (w₁ : W) × (net.call conn call w ≡ (nil, w₁)) × Performed conn calls w₁ w'

  explain-ne_nil : (cmd : Command) (e : Error) → e ≢ nil → explain cmd e ≢ nil
  unfolding explain
  explain-ne_nil (Command.auth u p h) e ne q = cc q
  explain-ne_nil (Command.mail from) e ne q = cc q
  explain-ne_nil (Command.rcpt to) e ne q = cc q
  explain-ne_nil Command.start_data e ne q = cc q
  explain-ne_nil (Command.write body) e ne q = cc q
  explain-ne_nil Command.close_data e ne q = cc q
  explain-ne_nil Command.quit e ne q = ne q

  Runs-Performed :
      (conn : Handle C) (cmds : List Command) (w : W) (out : Error × W)
      → Runs (λ cmd. net.call conn (perform cmd)) cmds w out
      → out.0 ≡ nil
      → Performed conn (map perform cmds) w out.1
  Runs-Performed conn [] w out runs ok = cc runs
  Runs-Performed conn (cmd ∷ cmds) w out (inl (w₁, performed, rest)) ok =
      (w₁, performed, Runs-Performed conn cmds w₁ out rest ok)
  Runs-Performed conn (cmd ∷ cmds) w out (inr (e, w₁, performed, ne, is)) ok =
      absurd (explain-ne_nil cmd e ne (rw is at ok))

  module _ (c : SmtpConfig) (lib : MailLib) (from : Address)
      (parsed : lib.parse_address c.from ≡ some from) (ctx : Context) (addr to body : Str) where
    -- The dialogue on the client.
    abbrev pub dialogue : List Call
    dialogue = map perform (script c from.address to body)

    -- The TLS configuration asked for: at least TLS 1.2, and the certificate of the host is checked
    -- unless SkipTLSVerify.
    abbrev pub asked : TlsConfig
    asked = record {
      insecure_skip_verify = c.skip_tls_verify;
      server_name = c.host;
      min_version = version_tls12;
    }

    -- All calls of a send, by UseTLS and UseStartTLS.
    abbrev pub transcript : Bool → Bool → List Call
    transcript true start = handshake ctx ∷ new_client c.host ∷ dialogue
    transcript false true = new_client c.host ∷ start_tls asked ∷ dialogue
    transcript false false = new_client c.host ∷ dialogue

    -- What they are made on, by UseTLS: the connection, or a TLS connection over it.
    abbrev pub medium : Bool → C → Handle C
    medium true conn = secured asked conn
    medium false conn = raw conn

    -- An action whose error is nil only if the calls were performed.
    abbrev Performs : Handle C → List Call → Action W Error → Type 0
    Performs conn calls action =
        (w : W) → (action w).0 ≡ returned nil → (w' : W) × Performed conn calls w w'

    talk-Performs :
        (conn : Handle C) → Performs conn dialogue (talk net c lib ctx addr to body conn)
    unfolding talk
    talk-Performs conn w h =
        let (out, ends, runs) =
          send_with_client-Follows (λ cmd. net.call conn (perform cmd)) lib.parse_address c from to
            body w parsed in
        (out.1, Runs-Performed conn (script c from.address to body) w out runs (cc (ends, h)))

    -- A call that is checked, and what follows it.
    or_wrapped-by :
        (conn : Handle C) (call : Call) (calls : List Call) (what : Str) (next : Action W Error)
        (w w₁ : W) (err : Error)
        → Performs conn calls next
        → net.call conn call w ≡ (err, w₁)
        → (or_wrapped net c what next err w₁).0 ≡ returned nil
        → (w' : W) × Performed conn (call ∷ calls) w w'
    unfolding or_wrapped
    or_wrapped-by conn call calls what next w w₁ nil performs called h =
        let (w', rest) = performs w₁ h in (w', (w₁, called, rest))
    or_wrapped-by conn call calls what next w w₁ err performs called h = absurd (cc h)

    with_client-Performs :
        (conn : Handle C) (calls : List Call) (next : Action W Error)
        → Performs conn calls next
        → Performs conn (new_client c.host ∷ calls) (with_client net c conn next)
    unfolding with_client
    with_client-Performs conn calls next performs w h =
        or_wrapped-by conn (new_client c.host) calls _
          (deferred (quietly net c conn close_client) next) w
          (net.call conn (new_client c.host) w).1 (net.call conn (new_client c.host) w).0 performs
          refl h

    upgraded-Performs :
        (conn : Handle C)
        → Performs conn (start_tls asked ∷ dialogue) (upgraded net c lib ctx addr to body conn)
    unfolding upgraded tls_config
    upgraded-Performs conn w h =
        or_wrapped-by conn (start_tls asked) dialogue _ (talk net c lib ctx addr to body conn) w
          (net.call conn (start_tls asked) w).1 (net.call conn (start_tls asked) w).0
          (talk-Performs conn) refl h

    over_tls-Performs :
        (conn : C)
        → Performs
            (secured asked conn)
            (transcript true true)
            (over_tls net c lib ctx addr to body conn)
    unfolding over_tls tls_config
    over_tls-Performs conn w h =
        or_wrapped-by (secured asked conn) (handshake ctx) (new_client c.host ∷ dialogue) _
          (with_client net c (secured asked conn)
            (talk net c lib ctx addr to body (secured asked conn)))
          w (net.call (secured asked conn) (handshake ctx) w).1
          (net.call (secured asked conn) (handshake ctx) w).0
          (with_client-Performs (secured asked conn) dialogue _
            (talk-Performs (secured asked conn)))
          refl h

    -- A connection was dialed, and the calls were performed on it, or over TLS on it.
    abbrev pub Transmitted : Bool → List Call → W → Type 0
    Transmitted tls calls w =
        (conn : C) × (w₁ : W) × (w₂ : W) × (dial net c ctx addr w ≡ (returned (dialed conn), w₁))
        × Performed (medium tls conn) calls w₁ w₂

    dialed-by :
        (what : Str) (use_conn : C → Action W Error) (tls : Bool) (calls : List Call)
        → ((conn : C) → Performs (medium tls conn) calls (use_conn conn))
        → (o : Outcome (Dialed C)) (w w₁ : W) → dial net c ctx addr w ≡ (o, w₁)
        → (continue o (λ d. connected net c what use_conn d) w₁).0 ≡ returned nil
        → Transmitted tls calls w
    unfolding connected
    dialed-by what use_conn tls calls performs panicked w w₁ e h = absurd (cc h)
    dialed-by what use_conn tls calls performs (returned (failed err)) w w₁ e h = absurd (cc h)
    dialed-by what use_conn tls calls performs (returned (dialed conn)) w w₁ e h =
        let (w₂, performed) = performs conn w₁ h in (conn, w₁, w₂, e, performed)

    chosen-Transmitted :
        (tls start : Bool) (w : W)
        → (chosen net c lib ctx addr to body tls start w).0 ≡ returned nil
        → Transmitted tls (transcript tls start) w
    unfolding chosen send_plain send_with_tls send_with_start_tls
    chosen-Transmitted true start w h =
        dialed-by _ (over_tls net c lib ctx addr to body) true (transcript true start)
          over_tls-Performs (dial net c ctx addr w).0 w (dial net c ctx addr w).1 refl h
    chosen-Transmitted false true w h =
        dialed-by _
          (λ conn. with_client net c (raw conn) (upgraded net c lib ctx addr to body (raw conn)))
          false (transcript false true)
          (λ conn.
            with_client-Performs (raw conn) (start_tls asked ∷ dialogue) _
              (upgraded-Performs (raw conn)))
          (dial net c ctx addr w).0 w (dial net c ctx addr w).1 refl h
    chosen-Transmitted false false w h =
        dialed-by _
          (λ conn. with_client net c (raw conn) (talk net c lib ctx addr to body (raw conn))) false
          (transcript false false)
          (λ conn. with_client-Performs (raw conn) dialogue _ (talk-Performs (raw conn)))
          (dial net c ctx addr w).0 w (dial net c ctx addr w).1 refl h

    pub send_email-Transmitted :
        (w : W)
        → (send_email net c lib ctx addr to body w).0 ≡ returned nil
        → Transmitted c.use_tls (transcript c.use_tls c.use_start_tls) w
    unfolding send_email
    send_email-Transmitted w h = chosen-Transmitted c.use_tls c.use_start_tls w h
