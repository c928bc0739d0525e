-- ===== src/Smtp/Dialogue.antt =====
-- smtp.go: sendWithClient against the script of the SMTP dialogue.
use provider_kit.Base.{
  Str, bytes, ◌==◌, Bool-cases, Option, some, List, [], ◌∷◌, ◌≡◌, ◌≢◌, refl, ◌⊎◌, inl, inr,
  if◌then◌else◌,
}
use provider_kit.Errors.{Error, nil, wrapped}
use provider_kit.Provider.Actions.{Action, returned, total}
use provider_kit.Smtp.Config.{SmtpConfig, Address}
use provider_kit.Smtp.Client.{
  Command, auth, mail, rcpt, start_data, write, close_data, quit, command, transfer, envelope,
  send_with_client,
}

-- The commands of one message, in order.
unfoldable pub script : SmtpConfig → Str → Str → Str → List Command
script c from to body =
    let rest = mail from ∷ rcpt to ∷ start_data ∷ write body ∷ close_data ∷ quit ∷ [] in
    if c.username == [] then rest else auth c.username c.password c.host ∷ rest

-- How the error of a command is reported.
unfoldable pub explain : Command → Error → Error
explain (auth u p h) e = wrapped (bytes "authentication failed") e
explain (mail from) e = wrapped (bytes "MAIL FROM failed") e
explain (rcpt to) e = wrapped (bytes "RCPT TO failed") e
explain start_data e = wrapped (bytes "DATA command failed") e
explain (write body) e = wrapped (bytes "write body failed") e
explain close_data e = wrapped (bytes "close writer failed") e
explain quit e = e

module _ {W : Type 0} (perform : Command → W → Error × W) where
  -- The commands are performed in order; the first that fails ends the dialogue with its error, and
  -- if all succeed, the error is nil.
  abbrev pub Runs : List Command → W → Error × W → Type 0
  Runs [] w out = out ≡ (nil, w)
  Runs (cmd ∷ rest) w out =
      ((w₁ : W) × (perform cmd w ≡ (nil, w₁)) × Runs rest w₁ out)
      ⊎ ((e : Error) × (w₁ : W) × (perform cmd w ≡ (e, w₁))
          × (e ≢ nil)
          × (out ≡ (explain cmd e, w₁)))

  -- The action ends as the commands do, and does not panic.
  abbrev pub Follows : List Command → Action W Error → W → Type 0
  Follows cmds action w = (out : Error × W) × (action w ≡ (returned out.0, out.1)) × Runs cmds w out

  command-by :
      (cmd : Command) (what : Str) (rest : List Command) (next : Action W Error) (w w₁ : W)
      (e : Error)
      → ((err : Error) → explain cmd err ≡ wrapped what err)
      → ((v : W) → Follows rest next v)
      → perform cmd w ≡ (e, w₁)
      → Follows (cmd ∷ rest) (command perform cmd what next) w
  unfolding command
  command-by cmd what rest next w w₁ nil text follows h =
      let (out, ends, runs) = follows w₁ in (out, rw h ends, inl (w₁, h, runs))
  command-by cmd what rest next w w₁ e text follows h =
      ((wrapped what e, w₁), rw h, inr (e, w₁, h, (λ q. cc q), rw (text e)))

  command-Follows :
      (cmd : Command) (what : Str) (rest : List Command) (next : Action W Error)
      → ((err : Error) → explain cmd err ≡ wrapped what err)
      → ((v : W) → Follows rest next v)
      → (w : W) → Follows (cmd ∷ rest) (command perform cmd what next) w
  command-Follows cmd what rest next text follows w =
      command-by cmd what rest next w (perform cmd w).1 (perform cmd w).0 text follows refl

  quit-by :
      (w w₁ : W) (e : Error)
      → perform quit w ≡ (e, w₁)
      → Follows (quit ∷ []) (total (perform quit)) w
  unfolding explain
  quit-by w w₁ nil h = ((nil, w₁), rw h, inl (w₁, h, refl))
  quit-by w w₁ e h = ((e, w₁), rw h, inr (e, w₁, h, (λ q. cc q), refl))

  transfer-Follows :
      (body : Str) (w : W)
      → Follows (start_data ∷ write body ∷ close_data ∷ quit ∷ []) (transfer perform body) w
  unfolding transfer explain
  transfer-Follows body =
      command-Follows start_data (bytes "DATA command failed") (write body ∷ close_data ∷ quit ∷ [])
        _ (λ e. refl)
        (command-Follows (write body) (bytes "write body failed") (close_data ∷ quit ∷ []) _
          (λ e. refl)
          (command-Follows close_data (bytes "close writer failed") (quit ∷ []) _ (λ e. refl)
            (λ w. quit-by w (perform quit w).1 (perform quit w).0 refl)))

  module _ (parse_address : Str → Option Address) (c : SmtpConfig) where
    envelope-Follows :
        (from : Address) (to body : Str) (w : W)
        → Follows
            (mail from.address ∷ rcpt to ∷ start_data ∷ write body ∷ close_data ∷ quit ∷ [])
            (envelope perform parse_address c (some from) to body)
            w
    unfolding envelope explain
    envelope-Follows from to body =
        command-Follows (mail from.address) (bytes "MAIL FROM failed")
          (rcpt to ∷ start_data ∷ write body ∷ close_data ∷ quit ∷ []) _ (λ e. refl)
          (command-Follows (rcpt to) (bytes "RCPT TO failed")
            (start_data ∷ write body ∷ close_data ∷ quit ∷ []) _ (λ e. refl)
            (transfer-Follows body))

    -- If From parses, sendWithClient does not panic; it performs AUTH, if there is a user name, MAIL
    -- with the sender, RCPT with the recipient, DATA, the body, the end of the body and QUIT, in this
    -- order; the first of them that fails ends the dialogue, nothing is sent after it, and the error
    -- says which it was; the error is nil if all succeed.
    pub send_with_client-Follows :
        (from : Address) (to body : Str) (w : W)
        → parse_address c.from ≡ some from
        → Follows
            (script c from.address to body)
            (send_with_client perform parse_address c to body)
            w
    unfolding send_with_client script explain
    send_with_client-Follows from to body w parses = elim (Bool-cases (c.username == [])) [
      | inl anonymous ↦ rw (anonymous, parses) (envelope-Follows from to body w)
      | inr named ↦
          rw (named, parses)
            (command-Follows (auth c.username c.password c.host) (bytes "authentication failed")
              (mail from.address ∷ rcpt to ∷ start_data ∷ write body ∷ close_data ∷ quit ∷ []) _
              (λ e. refl) (envelope-Follows from to body) w)
    ]
