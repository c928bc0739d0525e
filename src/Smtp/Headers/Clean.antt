-- ===== src/Smtp/Headers/Clean.antt =====
-- smtp.go: texts without line breaks, and what keeps a header value free of them.
use provider_kit.Base.{
  ℕ, Str, bytes, false, Option, none, some, [], ◌∷◌, ◌++◌, ◌≡◌, ◌≢◌, refl, arith,
}
use provider_kit.Errors.{nil}
use provider_kit.GoStrings.{after_last, contains_any, contains_byte}
use provider_kit.Smtp.Config.{SmtpConfig, Address, MailLib, contains_header_control, validate}
use provider_kit.Smtp.Mail.{format_address, message_id_domain, checked_recipient, parse_recipient}

-- No carriage return and no line feed.
abbrev pub IsClean : Str → Type 0
IsClean [] = Unit
IsClean (c ∷ s) = (c ≢ 0x0d) × (c ≢ 0x0a) × IsClean s

-- What the code relies on of net/mail and mime: an address that was parsed from a text without line
-- breaks has none; what is written for an address or a header value has none.
pub record WritesClean (lib : MailLib) : Type 0 where
  pub parse_clean :
      (s : Str) (a : Address) → IsClean s → lib.parse_address s ≡ some a → IsClean a.address
  pub string_clean : (a : Address) → IsClean a.address → IsClean (lib.address_string a)
  pub encode_clean : (s : Str) → IsClean (lib.q_encode s)

pub ++-IsClean : (s t : Str) → IsClean s → IsClean t → IsClean (s ++ t)
++-IsClean [] t clean clean' = clean'
++-IsClean (c ∷ s) t clean clean' = (clean.0, clean.1, ++-IsClean s t clean.2 clean')

pub no_control-IsClean : (s : Str) → contains_header_control s ≡ false → IsClean s
unfolding contains_header_control contains_any contains_byte
no_control-IsClean [] h = tt
no_control-IsClean (c ∷ s) h = ground (arith, no_control-IsClean s)

after_last-IsClean : (b : ℕ) (s t : Str) → IsClean s → after_last b s ≡ some t → IsClean t
unfolding after_last
after_last-IsClean b [] t clean h = cc
after_last-IsClean b (c ∷ s) t clean h = ground (arith, after_last-IsClean b s t clean.2)

localhost-IsClean : IsClean (bytes "localhost")
unfolding bytes contains_header_control contains_any contains_byte
localhost-IsClean = no_control-IsClean (bytes "localhost") refl

message_id_domain-by :
    (from : Str) (o : Option Str)
    → after_last b'@' from ≡ o
    → IsClean from
    → IsClean (message_id_domain from)
unfolding message_id_domain
message_id_domain-by from none e clean = rw e localhost-IsClean
message_id_domain-by from (some []) e clean = rw e localhost-IsClean
message_id_domain-by from (some (c ∷ domain)) e clean =
    rw e (after_last-IsClean b'@' from (c ∷ domain) clean e)

pub message_id_domain-IsClean : (from : Str) → IsClean from → IsClean (message_id_domain from)
message_id_domain-IsClean from clean = message_id_domain-by from (after_last b'@' from) refl clean

module _ (lib : MailLib) (writes : WritesClean lib) where
  pub format_address-IsClean : (a : Address) → IsClean a.address → IsClean (format_address lib a)
  unfolding format_address
  format_address-IsClean a clean = ground (arith, writes.string_clean a clean)

  parse_recipient-by :
      (raw : Str) (o : Option Address) (to : Address)
      → lib.parse_address raw ≡ o
      → contains_header_control raw ≡ false
      → checked_recipient lib o ≡ (some to, nil)
      → IsClean to.address
  unfolding checked_recipient
  parse_recipient-by raw none to e no_control h = cc h
  parse_recipient-by raw (some a) to e no_control h =
      ground (arith, writes.parse_clean raw a (no_control-IsClean raw no_control) e)

  -- The address that parseRecipient accepts has no line breaks.
  pub parse_recipient-IsClean :
      (raw : Str) (to : Address) → parse_recipient lib raw ≡ (some to, nil) → IsClean to.address
  unfolding parse_recipient
  parse_recipient-IsClean raw to h =
      ground (arith, parse_recipient-by raw (lib.parse_address raw) to refl)

  -- The sender of a valid configuration has none.
  pub validate-IsClean :
      (c : SmtpConfig) (from : Address)
      → validate lib c ≡ nil
      → lib.parse_address c.from ≡ some from
      → IsClean from.address
  unfolding validate
  validate-IsClean c from valid e =
      ground (arith, writes.parse_clean c.from from, no_control-IsClean c.from)
