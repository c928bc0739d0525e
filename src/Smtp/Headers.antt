-- ===== src/Smtp/Headers.antt =====
-- smtp.go: the email that buildEmailBody writes, read back line by line.
pub mod Clean
use mathlib.Core.List.{append_assoc, append-nil}
use provider_kit.Base.{
  ℕ, Str, bytes, nat_eq, ◌==◌, ==_iff, Bool, Bool-cases, true, false, Option, none, some, List, [],
  ◌∷◌, ◌++◌, ◌≡◌, ◌≢◌, refl, sym, ap, ◌∙◌, inl, inr, arith, if◌then◌else◌,
}
use provider_kit.Errors.{nil}
use provider_kit.Message.{Message}
use provider_kit.Smtp.Config.{SmtpConfig, Address, MailLib, contains_header_control, validate}
use provider_kit.Smtp.Mail.{
  crlf, format_address, named_sender, subject_header, message_id_domain, message_id_value,
  parse_recipient, build_email_body,
}
use Clean.{
  IsClean, WritesClean, ++-IsClean, no_control-IsClean, message_id_domain-IsClean,
  format_address-IsClean, parse_recipient-IsClean, validate-IsClean,
}
use provider_kit.GoStrings.{contains_any, contains_byte}

-- A line without the carriage return at its end.
strip_cr : Str → Str
strip_cr [] = []
strip_cr (c ∷ []) = if nat_eq c 0x0d then [] else c ∷ []
strip_cr (c ∷ d ∷ s) = c ∷ strip_cr (d ∷ s)

-- At the end of a line: an empty one ends the headers.
abbrev end_line : Str → List Str × Str → Str → List Str × Str
end_line [] next rest = ([], rest)
end_line (c ∷ line) next rest = ((c ∷ line) ∷ next.0, next.1)

-- How a mail reader takes the headers apart: a line ends at every line feed, with or without a
-- carriage return before it; what follows the first empty line is the body. `line` was read already.
unfoldable pub read_headers : Str → Str → List Str × Str
unfolding strip_cr
read_headers line [] = (line ∷ [], [])
read_headers line (c ∷ s) =
    let next = read_headers [] s in
    let more = read_headers (line ++ c ∷ []) s in
    if nat_eq c 0x0a then end_line (strip_cr line) next s else more

strip_cr-++ : (s : Str) → strip_cr (s ++ 0x0d ∷ []) ≡ s
unfolding strip_cr
strip_cr-++ [] = refl
strip_cr-++ (c ∷ []) = refl
strip_cr-++ (c ∷ d ∷ s) = ap (λ t. c ∷ t) (strip_cr-++ (d ∷ s))

read_headers-line :
    (line rest read : Str)
    → IsClean line
    → read_headers read (line ++ 0x0d ∷ 0x0a ∷ rest)
      ≡ end_line (read ++ line) (read_headers [] rest) rest
unfolding read_headers
read_headers-line [] rest read clean = rw (strip_cr-++ read, append-nil)
read_headers-line (c ∷ line) rest read clean =
    ground
      (arith, read_headers-line line rest (read ++ c ∷ []) clean.2, append_assoc read (c ∷ []) line)

-- Lines, an empty line, and the body.
abbrev joined : List Str → Str → Str
joined [] body = crlf ++ body
joined (line ∷ lines) body = line ++ (crlf ++ joined lines body)

abbrev AreLines : List Str → Type 0
AreLines [] = Unit
AreLines (line ∷ lines) = (line ≢ []) × IsClean line × AreLines lines

read_headers-joined :
    (lines : List Str) (body : Str)
    → AreLines lines
    → read_headers [] (joined lines body) ≡ (lines, body)
unfolding read_headers strip_cr
read_headers-joined [] body clean = refl
read_headers-joined ([] ∷ lines) body clean = absurd (clean.0 refl)
read_headers-joined ((c ∷ line) ∷ lines) body clean =
    read_headers-line (c ∷ line) (joined lines body) [] clean.1
    ∙ rw (read_headers-joined lines body clean.2)

module _ (lib : MailLib) (c : SmtpConfig) (msg : Message) (from to : Address) (id : Str) where
  abbrev subject_line : List Str → List Str
  subject_line rest =
      if msg.subject == [] then rest else (bytes "Subject: " ++ lib.q_encode msg.subject) ∷ rest

  -- The headers that an email has.
  abbrev pub email_lines : List Str
  email_lines =
      (bytes "From: " ++ format_address lib (named_sender lib c from))
      ∷ (bytes "To: " ++ format_address lib to)
      ∷ subject_line (
          bytes "MIME-Version: 1.0"
          ∷ bytes "Content-Type: text/plain; charset=UTF-8"
          ∷ (bytes "Message-ID: " ++ message_id_value lib id from)
          ∷ [])

  build_email_body-joined : build_email_body lib c msg from to id ≡ joined email_lines msg.body
  unfolding build_email_body subject_header
  build_email_body-joined = elim (Bool-cases (msg.subject == [])) [
    | inl absent ↦ rw absent (simp append_assoc)
    | inr present ↦ rw present (simp append_assoc)
  ]

  -- What is before the value of a header.
  name-IsClean :
      (name : Str)
      → contains_header_control name ≡ false
      → (value : Str) → IsClean value
      → IsClean (name ++ value)
  name-IsClean name h value clean = ++-IsClean name value (no_control-IsClean name h) clean

  module _ (writes : WritesClean lib) (id_clean : IsClean id) (from_clean : IsClean from.address)
      (to_clean : IsClean to.address) where
    sender-IsClean : IsClean (format_address lib (named_sender lib c from))
    sender-IsClean =
        format_address-IsClean lib writes (named_sender lib c from) (ground (arith, from_clean))

    message_id_value-IsClean : IsClean (message_id_value lib id from)
    unfolding bytes contains_header_control contains_any contains_byte
    message_id_value-IsClean =
        let opened = name-IsClean (bytes "<") refl id id_clean in
        let at =
          ++-IsClean (bytes "<" ++ id) (bytes "@") opened (no_control-IsClean (bytes "@") refl) in
        let domain =
          ++-IsClean (bytes "<" ++ id ++ bytes "@") (message_id_domain from.address) at
            (message_id_domain-IsClean from.address from_clean) in
        ++-IsClean (bytes "<" ++ id ++ bytes "@" ++ message_id_domain from.address) (bytes ">")
          domain (no_control-IsClean (bytes ">") refl)

    fixed_lines-AreLines : AreLines (
        bytes "MIME-Version: 1.0"
        ∷ bytes "Content-Type: text/plain; charset=UTF-8"
        ∷ (bytes "Message-ID: " ++ message_id_value lib id from)
        ∷ [])
    unfolding bytes contains_header_control contains_any contains_byte
    fixed_lines-AreLines =
        let id_line =
          name-IsClean (bytes "Message-ID: ") refl (message_id_value lib id from)
            message_id_value-IsClean in
        let content_type =
          no_control-IsClean (bytes "Content-Type: text/plain; charset=UTF-8") refl in
        (
          (λ h. cc h),
          no_control-IsClean (bytes "MIME-Version: 1.0") refl,
          ((λ h. cc h), content_type, ((λ h. cc h), id_line, tt)),
        )

    subject_line-AreLines : (rest : List Str) → AreLines rest → AreLines (subject_line rest)
    unfolding bytes contains_header_control contains_any contains_byte
    subject_line-AreLines rest lines = elim (Bool-cases (msg.subject == [])) [
      | inl absent ↦ rw absent lines
      | inr present ↦ rw present (
        (λ h. cc h),
        name-IsClean (bytes "Subject: ") refl (lib.q_encode msg.subject)
            (writes.encode_clean msg.subject),
        lines,
      )
    ]

    email_lines-AreLines : AreLines email_lines
    unfolding bytes contains_header_control contains_any contains_byte
    email_lines-AreLines =
        let to_line =
          name-IsClean (bytes "To: ") refl (format_address lib to)
            (format_address-IsClean lib writes to to_clean) in
        (
          (λ h. cc h),
          name-IsClean (bytes "From: ") refl (format_address lib (named_sender lib c from))
              sender-IsClean,
          ((λ h. cc h), to_line, subject_line-AreLines _ fixed_lines-AreLines),
        )

-- The email for a message reads back as exactly its own headers, From, To, Subject if there is one,
-- MIME-Version, Content-Type and Message-ID, and then as the body of the message, whatever the
-- subject, the body, the display names and the recipient are: nothing in them starts a further header
-- or ends the headers early. (The configuration is valid, From parses, the recipient was accepted, the
-- identifier has no line breaks, and net/mail and mime write none.)
pub read_headers-build_email_body :
    (lib : MailLib) (c : SmtpConfig) (msg : Message) (from to : Address) (id : Str)
    → WritesClean lib
    → validate lib c ≡ nil
    → lib.parse_address c.from ≡ some from
    → parse_recipient lib msg.to ≡ (some to, nil)
    → IsClean id
    → read_headers [] (build_email_body lib c msg from to id)
      ≡ (email_lines lib c msg from to id, msg.body)
read_headers-build_email_body lib c msg from to id writes valid parsed accepted id_clean =
    rw (build_email_body-joined lib c msg from to id) (
      read_headers-joined (email_lines lib c msg from to id) msg.body (
        email_lines-AreLines lib c msg from to id writes id_clean
          (validate-IsClean lib writes c from valid parsed)
          (parse_recipient-IsClean lib writes msg.to to accepted)))
