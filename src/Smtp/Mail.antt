-- ===== src/Smtp/Mail.antt =====
-- smtp.go: the recipient, the headers and the body of an email.
use provider_kit.Base.{Str, bytes, ◌==◌, Option, none, some, [], ◌∷◌, ◌++◌, if◌then◌else◌}
use provider_kit.GoStrings.{after_last}
use provider_kit.Errors.{Error, nil, plain}
use provider_kit.Message.{Message}
use provider_kit.Smtp.Config.{SmtpConfig, Address, MailLib, contains_header_control}

abbrev pub crlf : Str
crlf = 0x0d ∷ 0x0a ∷ []

-- from[at+1:], unless that is empty
abbrev domain_or_localhost : Option Str → Str
domain_or_localhost none = bytes "localhost"
domain_or_localhost (some []) = bytes "localhost"
domain_or_localhost (some (c ∷ domain)) = c ∷ domain

unfoldable pub message_id_domain : Str → Str
unfolding after_last
message_id_domain from = domain_or_localhost (after_last b'@' from)

-- fmt.Fprintf(&sb, "Name: %s\r\n", value), the name with its colon and blank
abbrev header : Str → Str → Str
header name value = name ++ value ++ crlf

module _ (lib : MailLib) where
  abbrev invalid_recipient : Option Address × Error
  invalid_recipient = (none, plain (bytes "invalid recipient email address"))

  -- The checks on what mail.ParseAddress returns.
  unfoldable pub checked_recipient : Option Address → Option Address × Error
  checked_recipient none = invalid_recipient
  checked_recipient (some a) = if a.address == [] then invalid_recipient else (some a, nil)

  unfoldable pub parse_recipient : Str → Option Address × Error
  unfolding checked_recipient contains_header_control
  parse_recipient raw =
      if contains_header_control raw
      then (none, plain (bytes "recipient contains prohibited control characters"))
      else checked_recipient (lib.parse_address raw)

  unfoldable pub format_address : Address → Str
  format_address a = if a.display_name == [] then a.address else lib.address_string a

  -- from.Name = p.config.FromName
  abbrev pub named_sender : SmtpConfig → Address → Address
  named_sender c from =
      if c.from_name == [] then from else record from { display_name = c.from_name }

  unfoldable pub subject_header : Str → Str
  subject_header subject =
      if subject == [] then [] else header (bytes "Subject: ") (lib.q_encode subject)

  abbrev pub message_id_value : Str → Address → Str
  message_id_value id from =
      bytes "<" ++ id ++ bytes "@" ++ message_id_domain from.address ++ bytes ">"

  -- buildEmailBody, with the sender that From parses to.
  unfoldable pub build_email_body : SmtpConfig → Message → Address → Address → Str → Str
  unfolding subject_header
  build_email_body c msg from to id =
      header (bytes "From: ") (format_address (named_sender c from))
      ++ (header (bytes "To: ") (format_address to)
          ++ (subject_header msg.subject
              ++ (bytes "MIME-Version: 1.0"
                  ++ crlf
                  ++ (bytes "Content-Type: text/plain; charset=UTF-8"
                      ++ crlf
                      ++ (header (bytes "Message-ID: ") (message_id_value id from)
                          ++ (crlf ++ msg.body))))))
