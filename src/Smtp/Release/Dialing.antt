-- ===== src/Smtp/Release/Dialing.antt =====
-- smtp.go: the connection that a send dials, and that its clean-up closes.
use provider_kit.Base.{Str, bytes, Bool, true, false, ◌≡◌, ◌≢◌, refl, sym, subst, ◌∙◌, ◌+ℤ◌}
use provider_kit.Errors.{Error, nil}
use provider_kit.Provider.{Context, Duration}
use provider_kit.Provider.Actions.{Action, ◌>>=◌}
use provider_kit.Smtp.Config.{SmtpConfig, MailLib}
use provider_kit.Smtp.Connection.{
  Network, Handle, raw, base, Call, set_deadline, after_func, stop_cancel, close_conn, Dialed,
  dialed, failed, earlier, guarded, with_deadline, dial, cleanup, connected, with_client, talk,
  over_tls, upgraded, send_plain, send_with_tls, send_with_start_tls, send_email, chosen,
}
use provider_kit.Smtp.Release.Steps.{talk-Keeps, with_client-Keeps, over_tls-Keeps, upgraded-Keeps}

-- What the code relies on of net: a dial that succeeds opens one connection, which was not open, and
-- one that fails opens none; a call on a connection opens and closes no other; and Close closes it.
pub record Releases {C W : Type 0} (net : Network C W) (is_open : W → C → Bool) : Type 0 where
  pub dial_new :
      (ctx : Context) (addr : Str) (t : Duration) (w : W) (conn : C)
      → (net.dial_context ctx addr t w).0 ≡ dialed conn
      → is_open w conn ≡ false
  pub dial_others :
      (ctx : Context) (addr : Str) (t : Duration) (w : W) (conn d : C)
      → (net.dial_context ctx addr t w).0 ≡ dialed conn
      → conn ≢ d
      → is_open (net.dial_context ctx addr t w).1 d ≡ is_open w d
  pub dial_failed :
      (ctx : Context) (addr : Str) (t : Duration) (w : W) (e : Error) (d : C)
      → (net.dial_context ctx addr t w).0 ≡ failed e
      → is_open (net.dial_context ctx addr t w).1 d ≡ is_open w d
  pub call_others :
      (conn : Handle C) (d : C) (call : Call) (w : W)
      → base conn ≢ d
      → is_open (net.call conn call w).1 d ≡ is_open w d
  pub closes : (conn : C) (w : W) → is_open (net.call (raw conn) close_conn w).1 conn ≡ false
  pub uuid_same : (w : W) (d : C) → is_open (net.new_uuid w).1 d ≡ is_open w d
  pub now_same : (w : W) (d : C) → is_open (net.now w).1 d ≡ is_open w d

module _ {C W : Type 0} (net : Network C W) (is_open : W → C → Bool)
    (net_releases : Releases net is_open) (c : SmtpConfig) where
  -- The connections other than `conn` are as they were.
  abbrev Others : C → W → W → Type 0
  Others conn w w' = (d : C) → conn ≢ d → is_open w' d ≡ is_open w d

  -- `conn` is closed as well, and was not open before.
  abbrev Closed : C → W → W → Type 0
  Closed conn w w' = Others conn w w' × (is_open w' conn ≡ is_open w conn)

  cleanup-closes : (conn : C) (w : W) → is_open (cleanup net c conn w) conn ≡ false
  unfolding cleanup
  cleanup-closes conn w = net_releases.closes conn _

  cleanup-Others : (conn : C) (w : W) → Others conn w (cleanup net c conn w)
  unfolding cleanup
  cleanup-Others conn w d other =
      net_releases.call_others (raw conn) d close_conn _ other
      ∙ net_releases.call_others (raw conn) d stop_cancel w other

  every :
      (conn : C) (w w' : W)
      → Closed conn w w'
      → (d : C) → Dec (conn ≡ d)
      → is_open w' d ≡ is_open w d
  every conn w w' closed d (yes p) = subst (λ x. is_open w' x ≡ is_open w x) p closed.1
  every conn w w' closed d (no p) = closed.0 d p

  -- What a send does with the connection that dial gives, on every branch of dial.
  module _ (what : Str) (use_conn : C → Action W Error) (ctx : Context) (addr : Str)
      (others : (conn : C) (w : W) → Others conn w (use_conn conn w).1) where
    abbrev dialing : Action W Error
    dialing = do d ← dial net c ctx addr; connected net c what use_conn d

    -- From the deadline on: `w` is the world before the dial, `v` the one after SetDeadline.
    guarded_by :
        (conn : C) (err : Error) (w v : W)
        → is_open w conn ≡ false
        → Others conn w v
        → Closed conn w ((do d ← guarded net c ctx conn err; connected net c what use_conn d) v).1
    unfolding guarded connected
    guarded_by conn nil w v new before =
        let used = net.call (raw conn) (after_func ctx) v in
        (
          λ d other.
              cleanup-Others conn (use_conn conn used.1).1 d other
              ∙ others conn used.1 d other
              ∙ net_releases.call_others (raw conn) d (after_func ctx) v other
              ∙ before d other,
          cleanup-closes conn (use_conn conn used.1).1 ∙ sym new,
        )
    guarded_by conn err w v new before = (
      λ d other. net_releases.call_others (raw conn) d close_conn v other ∙ before d other,
      net_releases.closes conn v ∙ sym new,
    )

    -- Every connection is as it was: pre-existing ones were left alone, and the one that was dialed
    -- is closed.
    dialing_by :
        (Discrete C)
        → (d : Dialed C) (w : W) → (net.dial_context ctx addr c.timeout w).0 ≡ d
        → (e : C) → is_open (dialing w).1 e ≡ is_open w e
    unfolding dial with_deadline connected
    dialing_by same (failed err) w h e =
        rw h (net_releases.dial_failed ctx addr c.timeout w err e h)
    dialing_by same (dialed conn) w h e =
        let w₁ = (net.dial_context ctx addr c.timeout w).1 in
        let clock = net.now w₁ in
        let armed =
          net.call (raw conn) (set_deadline (earlier ctx.deadline (clock.0 +ℤ c.timeout)))
            clock.1 in
        let before : Others conn w armed.1 = λ d other.
          net_releases.call_others (raw conn) d _ clock.1 other
          ∙ net_releases.now_same w₁ d
          ∙ net_releases.dial_others ctx addr c.timeout w conn d h other in
        let closed =
          guarded_by conn armed.0 w armed.1 (net_releases.dial_new ctx addr c.timeout w conn h)
            before in
        rw h (every conn w _ closed e (same conn e))

  module _ (same : Discrete C) (lib : MailLib) (ctx : Context) (addr to body : Str) where
    calls-Others :
        (conn : C) (over : Handle C) (call : Call) (w : W)
        → base over ≡ conn
        → Others conn w (net.call over call w).1
    calls-Others conn over call w is d other = net_releases.call_others over d call w (rw is other)

    on_raw : (conn : C) (call : Call) (w : W) → Others conn w (net.call (raw conn) call w).1
    on_raw conn call w = calls-Others conn (raw conn) call w refl

    both : (conn : C) (u v w : W) → Others conn u v → Others conn v w → Others conn u w
    both conn u v w first second d other = second d other ∙ first d other

    talk-Others :
        (conn : C) (w : W)
        → Others conn w
            (with_client net c (raw conn) (talk net c lib ctx addr to body (raw conn)) w).1
    talk-Others conn =
        with_client-Keeps net c lib (raw conn) (Others conn) (λ w d other. refl) (both conn)
          (on_raw conn) _
          (talk-Keeps net c lib (raw conn) (Others conn) (λ w d other. refl) (both conn)
            (on_raw conn) ctx addr to body)

    upgraded-Others :
        (conn : C) (w : W)
        → Others conn w
            (with_client net c (raw conn) (upgraded net c lib ctx addr to body (raw conn)) w).1
    upgraded-Others conn =
        with_client-Keeps net c lib (raw conn) (Others conn) (λ w d other. refl) (both conn)
          (on_raw conn) _
          (upgraded-Keeps net c lib (raw conn) (Others conn) (λ w d other. refl) (both conn)
            (on_raw conn) ctx addr to body)

    tls-Others : (conn : C) (w : W) → Others conn w (over_tls net c lib ctx addr to body conn w).1
    tls-Others conn =
        over_tls-Keeps net c lib conn (Others conn) (λ w d other. refl) (both conn)
          (calls-Others conn) ctx addr to body

    chosen_releases :
        (tls start : Bool) (w : W) (d : C)
        → is_open (chosen net c lib ctx addr to body tls start w).1 d ≡ is_open w d
    unfolding chosen send_plain send_with_tls send_with_start_tls
    chosen_releases true start w d =
        dialing_by (bytes "TLS dial failed") (over_tls net c lib ctx addr to body) ctx addr
          tls-Others same _ w refl d
    chosen_releases false true w d =
        dialing_by (bytes "SMTP dial failed")
          (λ conn. with_client net c (raw conn) (upgraded net c lib ctx addr to body (raw conn)))
          ctx addr upgraded-Others same _ w refl d
    chosen_releases false false w d =
        dialing_by (bytes "SMTP dial failed")
          (λ conn. with_client net c (raw conn) (talk net c lib ctx addr to body (raw conn))) ctx
          addr talk-Others same _ w refl d

    pub send_email_releases :
        (w : W) (d : C) → is_open (send_email net c lib ctx addr to body w).1 d ≡ is_open w d
    unfolding send_email
    send_email_releases w d = chosen_releases c.use_tls c.use_start_tls w d
