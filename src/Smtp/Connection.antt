-- ===== src/Smtp/Connection.antt =====
-- smtp.go: connections. The packages net, crypto/tls and net/smtp are a parameter, which answers
-- to calls on a connection or on the TLS connection over it; a client is addressed by what it was
-- made over.
use provider_kit.Base.{Str, bytes, Bool, Option, none, some, ◌+ℤ◌, if◌then◌else◌}
use provider_kit.Errors.{Error, nil, wrapped}
use provider_kit.SendResult.{Time}
use provider_kit.Provider.{Context, Duration, before}
use provider_kit.Provider.Actions.{Action, returned, pure, total, ◌>>=◌}
use provider_kit.Smtp.Config.{SmtpConfig, MailLib}
use provider_kit.Smtp.Client.{Command, send_with_client}

-- The version constants of crypto/tls.
pub data TlsVersion : Type 0 where
  version_tls10 : TlsVersion
  version_tls11 : TlsVersion
  version_tls12 : TlsVersion
  version_tls13 : TlsVersion

-- The fields of tls.Config that are set.
pub record TlsConfig : Type 0 where
  pub insecure_skip_verify : Bool
  pub server_name : Str
  pub min_version : TlsVersion

-- A connection, or `tls.Client(conn, config)` over it.
pub data Handle (C : Type 0) : Type 0 where
  raw : C → Handle C
  secured : TlsConfig → C → Handle C

-- The connection underneath.
abbrev pub base : {C : Type 0} → Handle C → C
base (raw conn) = conn
base (secured config conn) = conn

-- What is called on a connection, on a TLS connection, or on the client over one of them.
pub data Call : Type 0 where
  set_deadline : Time → Call
  -- context.AfterFunc(ctx, …): from then on the end of `ctx` sets the deadline to that instant
  after_func : Context → Call
  stop_cancel : Call
  handshake : Context → Call
  new_client : Str → Call
  start_tls : TlsConfig → Call
  perform : Command → Call
  close_client : Call
  close_conn : Call

pub data Dialed (C : Type 0) : Type 0 where
  dialed : C → Dialed C
  failed : Error → Dialed C

pub record Network (C W : Type 0) : Type 0 where
  -- smtpDialContext over tcp
  pub dial_context : Context → Str → Duration → W → Dialed C × W
  pub call : Handle C → Call → W → Error × W
  pub now : W → Time × W
  pub new_uuid : W → Str × W

module _ {W A : Type 0} where
  -- defer: the world after it, whether `action` returns or panics
  abbrev pub deferred : (W → W) → Action W A → Action W A
  deferred release action w = let (outcome, w') = action w in (outcome, release w')

-- if ctx has a deadline before `deadline`, that one
abbrev pub earlier : Option Time → Time → Time
earlier none deadline = deadline
earlier (some t) deadline = if before t deadline then t else deadline

module _ {C W : Type 0} (net : Network C W) (c : SmtpConfig) where
  -- A call whose error is discarded.
  abbrev pub quietly : Handle C → Call → W → W
  quietly conn call w = (net.call conn call w).1

  unfoldable pub tls_config : TlsConfig
  tls_config = record {
    insecure_skip_verify = c.skip_tls_verify;
    server_name = c.host;
    min_version = version_tls12;
  }

  -- What follows `conn.SetDeadline`.
  unfoldable pub guarded : Context → C → Error → Action W (Dialed C)
  guarded ctx conn nil w = (returned (dialed conn), quietly (raw conn) (after_func ctx) w)
  guarded ctx conn err w = (returned (failed err), quietly (raw conn) close_conn w)

  -- What follows `smtpDialContext`.
  unfoldable pub with_deadline : Context → Dialed C → Action W (Dialed C)
  unfolding guarded
  with_deadline ctx (failed err) = pure (failed err)
  with_deadline ctx (dialed conn) = do
    now ← total net.now
    err ← total (net.call (raw conn) (set_deadline (earlier ctx.deadline (now +ℤ c.timeout))))
    guarded ctx conn err

  -- (*SMTPProvider).dial
  unfoldable pub dial : Context → Str → Action W (Dialed C)
  unfolding with_deadline
  dial ctx addr = do d ← total (net.dial_context ctx addr c.timeout); with_deadline ctx d

  -- The function `cleanup` that dial returns.
  unfoldable pub cleanup : C → W → W
  cleanup conn w = quietly (raw conn) close_conn (quietly (raw conn) stop_cancel w)

  -- if err != nil { return fmt.Errorf("what: %w", err) }; defer cleanup()
  unfoldable pub connected : Str → (C → Action W Error) → Dialed C → Action W Error
  unfolding cleanup
  connected what use_conn (failed err) = pure (wrapped what err)
  connected what use_conn (dialed conn) = deferred (cleanup conn) (use_conn conn)

  unfoldable pub or_wrapped : Str → Action W Error → Error → Action W Error
  or_wrapped what next nil = next
  or_wrapped what next err = pure (wrapped what err)

  -- smtpNewClient, and the deferred client.Close()
  unfoldable pub with_client : Handle C → Action W Error → Action W Error
  unfolding or_wrapped
  with_client conn talk = do
    err ← total (net.call conn (new_client c.host))
    or_wrapped (bytes "SMTP client creation failed") (deferred (quietly conn close_client) talk) err

  module _ (lib : MailLib) (ctx : Context) (addr to body : Str) where
    -- sendWithClient over the connection
    unfoldable pub talk : Handle C → Action W Error
    unfolding send_with_client
    talk conn = send_with_client (λ cmd. net.call conn (perform cmd)) lib.parse_address c to body

    unfoldable pub send_plain : Action W Error
    unfolding dial connected with_client talk
    send_plain = do
      d ← dial ctx addr
      connected (bytes "SMTP dial failed") (λ conn. with_client (raw conn) (talk (raw conn))) d

    -- From `tls.Client` on: the client is made over the TLS connection.
    unfoldable pub over_tls : C → Action W Error
    unfolding with_client talk or_wrapped tls_config
    over_tls conn = do
      let tls_conn = secured tls_config conn
      err ← total (net.call tls_conn (handshake ctx))
      or_wrapped (bytes "TLS handshake failed") (with_client tls_conn (talk tls_conn)) err

    unfoldable pub send_with_tls : Action W Error
    unfolding dial connected over_tls
    send_with_tls = do d ← dial ctx addr; connected (bytes "TLS dial failed") over_tls d

    -- From `client.StartTLS` on.
    unfoldable pub upgraded : Handle C → Action W Error
    unfolding talk or_wrapped
    upgraded conn = do
      err ← total (net.call conn (start_tls tls_config))
      or_wrapped (bytes "STARTTLS failed") (talk conn) err

    unfoldable pub send_with_start_tls : Action W Error
    unfolding dial connected with_client upgraded
    send_with_start_tls = do
      d ← dial ctx addr
      connected (bytes "SMTP dial failed") (λ conn. with_client (raw conn) (upgraded (raw conn))) d

    -- The choice that Send makes, by UseTLS and UseStartTLS.
    unfoldable pub chosen : Bool → Bool → Action W Error
    chosen tls start =
        if tls then send_with_tls else if start then send_with_start_tls else send_plain

    unfoldable pub send_email : Action W Error
    unfolding chosen send_plain send_with_tls send_with_start_tls
    send_email = chosen c.use_tls c.use_start_tls
