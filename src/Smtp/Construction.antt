-- ===== src/Smtp/Construction.antt =====
-- smtp.go: what NewSMTPProvider guarantees of the provider that it returns.
use provider_kit.Base.{
  Str, bytes, ==_iff, true, false, Option, none, some, [], ◌∷◌, ◌≡◌, ◌≢◌, refl, sym, subst, arith,
  pos, ◌≤ℤ◌, ◌<ℤ◌,
}
use provider_kit.GoStrings.{contains_any, is_trimmable}
use provider_kit.GoStrings.Utf8.{valid_string}
use provider_kit.GoMap.{GoMap}
use provider_kit.Errors.{Error, nil}
use provider_kit.Smtp.Config.{
  SmtpConfig, Address, MailLib, SmtpProvider, contains_header_control, validate_rest, validate,
  with_timeout, config_or_default, constructed, new_smtp_provider, smtp_config_from_map,
  new_smtp_provider_from_map,
}

module _ (lib : MailLib) where
  -- The part of Validate that follows mail.ParseAddress.
  rest-from_name :
      (c : SmtpConfig)
      → validate_rest c ≡ nil
      → (contains_header_control c.from_name ≡ false)
        × (valid_string c.from_name ≡ true)
        × (pos 0 ≤ℤ c.timeout)
  unfolding validate_rest
  rest-from_name c h = ground arith

  -- A configuration that Validate accepts.
  pub record IsValid (c : SmtpConfig) : Type 0 where
    pub sender : Address
    pub from_parses : lib.parse_address c.from ≡ some sender
    pub has_host : c.host ≢ []
    pub host_plain :
        (is_trimmable c.host ≡ false)
        × (contains_header_control c.host ≡ false)
        × (contains_any c.host (0x20 ∷ 0x09 ∷ []) ≡ false)
    pub port_positive : pos 0 <ℤ c.port
    pub port_bounded : c.port ≤ℤ pos 65535
    pub from_plain : contains_header_control c.from ≡ false
    pub name_plain :
        (contains_header_control c.from_name ≡ false) × (valid_string c.from_name ≡ true)
    pub patient : pos 0 ≤ℤ c.timeout

  validate-by :
      (c : SmtpConfig) (o : Option Address)
      → lib.parse_address c.from ≡ o
      → validate lib c ≡ nil
      → (a : Address) × (o ≡ some a) × (validate_rest c ≡ nil)
  unfolding validate
  validate-by c none e h = absurd (ground arith)
  validate-by c (some a) e h = (a, refl, ground arith)

  validate-host :
      (c : SmtpConfig)
      → validate lib c ≡ nil
      → (c.host ≢ [])
        × (is_trimmable c.host ≡ false)
        × (contains_header_control c.host ≡ false)
        × (contains_any c.host (0x20 ∷ 0x09 ∷ []) ≡ false)
  unfolding validate
  validate-host c h = ground (arith, ==_iff c.host [])

  validate-port :
      (c : SmtpConfig)
      → validate lib c ≡ nil
      → (pos 0 <ℤ c.port) × (c.port ≤ℤ pos 65535) × (contains_header_control c.from ≡ false)
  unfolding validate
  validate-port c h = ground arith

  pub validate-IsValid : (c : SmtpConfig) → validate lib c ≡ nil → IsValid c
  validate-IsValid c h =
      let (sender, parses, rest) = validate-by c (lib.parse_address c.from) refl h in
      let (has_host, not_trimmed, no_control, no_blank) = validate-host c h in
      let (positive, bounded, from_plain) = validate-port c h in
      let (no_name_control, utf8, patient) = rest-from_name c rest in
      record {
        sender = sender;
        from_parses = parses;
        has_host = has_host;
        host_plain = (not_trimmed, no_control, no_blank);
        port_positive = positive;
        port_bounded = bounded;
        from_plain = from_plain;
        name_plain = (no_name_control, utf8);
        patient = patient;
      }

  pub validate-parses :
      (c : SmtpConfig)
      → validate lib c ≡ nil
      → (from : Address) × (lib.parse_address c.from ≡ some from)
  validate-parses c h = let v = validate-IsValid c h in (v.sender, v.from_parses)

  with_timeout-ne_zero : (c : SmtpConfig) → (with_timeout c).timeout ≢ pos 0
  unfolding with_timeout
  with_timeout-ne_zero c h = ground arith

  -- What is shown of a new configuration.
  abbrev pub IsReady : SmtpConfig → Type 0
  IsReady c = IsValid c × (validate lib c ≡ nil) × (pos 0 <ℤ c.timeout)

  with_timeout-IsReady :
      (c : SmtpConfig) → validate lib (with_timeout c) ≡ nil → IsReady (with_timeout c)
  with_timeout-IsReady c valid =
      let v = validate-IsValid (with_timeout c) valid in
      let patient = v.patient in let ne = with_timeout-ne_zero c in (v, valid, ground arith)

  module _ {D : Type 0} where
    constructed_nil :
        (err : Error) (c : SmtpConfig) (p : SmtpProvider D)
        → constructed lib err c ≡ (some p, nil)
        → (err ≡ nil) × (p.config ≡ c) × (p.name ≡ bytes "smtp")
    unfolding constructed
    constructed_nil nil c p h = ground arith
    constructed_nil err c p h = absurd (cc h)

    -- A provider that NewSMTPProvider returns without an error, also for a nil configuration, has a valid
    -- configuration: a host without white space around it, blanks or control characters, a port from 1
    -- to 65535, a sender that parses, header values without control characters, and a positive timeout,
    -- 0 being replaced; and it is called smtp.
    pub new_smtp_provider-IsReady :
        (config : Option SmtpConfig) (p : SmtpProvider D)
        → new_smtp_provider lib config ≡ (some p, nil)
        → IsReady p.config × (p.name ≡ bytes "smtp")
    unfolding new_smtp_provider
    new_smtp_provider-IsReady config p h =
        let c = config_or_default config in
        let (valid, same, named) =
          constructed_nil (validate lib (with_timeout c)) (with_timeout c) p h in
        (subst IsReady (sym same) (with_timeout-IsReady c valid), named)

    -- The same of NewSMTPProviderFromMap.
    pub new_smtp_provider_from_map-IsReady :
        (m : GoMap Str) (p : SmtpProvider D)
        → new_smtp_provider_from_map lib m ≡ (some p, nil)
        → IsReady p.config
    unfolding new_smtp_provider_from_map
    new_smtp_provider_from_map-IsReady m p h =
        (new_smtp_provider-IsReady (some (smtp_config_from_map lib m)) p h).0
