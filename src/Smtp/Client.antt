-- ===== src/Smtp/Client.antt =====
-- smtp.go: sendWithClient, the dialogue with an SMTP client.
use provider_kit.Base.{Str, bytes, ◌==◌, Option, none, some, [], if◌then◌else◌}
use provider_kit.Errors.{Error, nil, wrapped}
use provider_kit.Provider.Actions.{Action, pure, panic, total, ◌>>=◌}
use provider_kit.Smtp.Config.{SmtpConfig, Address}

-- The methods of smtpClientInterface that sendWithClient calls, and those of the writer of Data.
pub data Command : Type 0 where
  -- Auth with smtp.PlainAuth
  auth : (username password host : Str) → Command
  mail : Str → Command
  rcpt : Str → Command
  start_data : Command
  write : Str → Command
  close_data : Command
  quit : Command

-- `perform` is the client.
module _ {W : Type 0} (perform : Command → W → Error × W) where
  -- if err := …; err != nil { return fmt.Errorf("what: %w", err) }
  unfoldable pub checked : Str → Error → Action W Error → Action W Error
  checked what nil next = next
  checked what err next = pure (wrapped what err)

  unfoldable pub command : Command → Str → Action W Error → Action W Error
  unfolding checked
  command cmd what next = do err ← total (perform cmd); checked what err next

  -- From `client.Data()` to the end.
  unfoldable pub transfer : Str → Action W Error
  unfolding command
  transfer body = command start_data (bytes "DATA command failed") (
      command (write body) (bytes "write body failed")
        (command close_data (bytes "close writer failed") (total (perform quit))))

-- `parse_address` is mail.ParseAddress, `none` where it fails.
module _ {W : Type 0} (perform : Command → W → Error × W) (parse_address : Str → Option Address)
    (c : SmtpConfig) where
  -- From `client.Mail` to the end; `from.Address` reads through a nil pointer if From does not parse.
  unfoldable pub envelope : Option Address → Str → Str → Action W Error
  unfolding transfer
  envelope none to body = panic
  envelope (some from) to body =
      command perform (mail from.address) (bytes "MAIL FROM failed")
        (command perform (rcpt to) (bytes "RCPT TO failed") (transfer perform body))

  -- (*SMTPProvider).sendWithClient
  unfoldable pub send_with_client : Str → Str → Action W Error
  unfolding envelope
  send_with_client to body =
      if c.username == []
      then envelope (parse_address c.from) to body
      else command perform (auth c.username c.password c.host) (bytes "authentication failed")
          (envelope (parse_address c.from) to body)
