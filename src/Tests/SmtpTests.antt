-- ===== src/Tests/SmtpTests.antt =====
-- smtp.go: a server that refuses the third command.
use provider_kit.Base.{ℕ, suc, nat_eq, bytes, ◌==◌, [], some, ◌≡◌, refl, if◌then◌else◌}
use provider_kit.Errors.{Error, nil, plain, wrapped}
use provider_kit.Provider.Actions.{returned}
use provider_kit.Smtp.Config.{SmtpConfig, default_smtp_config, Address}
use provider_kit.Smtp.Client.{Command, send_with_client, command}
use provider_kit.Smtp.Dialogue.{script, Follows, send_with_client-Follows}

abbrev config : SmtpConfig
config = record default_smtp_config {
  host = bytes "mail";
  username = bytes "u";
  password = bytes "p";
  from = bytes "a@b";
}

abbrev sender : Address
sender = record { display_name = []; address = bytes "a@b" }

abbrev refuses_third : Command → ℕ → Error × ℕ
refuses_third cmd n = (if nat_eq n 2 then plain (bytes "550") else nil, suc n)

refused_recipient :
    send_with_client refuses_third (λ text. some sender) config (bytes "x") (bytes "hello") 0
    ≡ (returned (wrapped (bytes "RCPT TO failed") (plain (bytes "550"))), 3)
unfolding send_with_client command default_smtp_config bytes ◌==◌
refused_recipient = refl

send_with_client-Follows_example :
    Follows refuses_third
      (script config (bytes "a@b") (bytes "x") (bytes "hello"))
      (send_with_client refuses_third (λ text. some sender) config (bytes "x") (bytes "hello"))
      0
send_with_client-Follows_example =
    send_with_client-Follows refuses_third (λ text. some sender) config sender (bytes "x")
      (bytes "hello") 0 refl
