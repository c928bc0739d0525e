-- ===== src/Smtp/Config.antt =====
-- smtp.go: SMTPConfig with its checks, and the construction of a provider. net/mail and fmt.Sscanf are
-- parameters.
use provider_kit.Base.{
  Str, bytes, ◌==◌, Bool, true, false, not, ◌||◌, Option, none, some, [], ◌∷◌, ◌++◌, ℤ, pos,
  pos_part, neg_part, nat_eq, ◌+◌, ltb_ℤ, if◌then◌else◌,
}
use provider_kit.GoMap.{GoMap, get}
use provider_kit.GoStrings.{contains_any, is_trimmable}
use provider_kit.GoStrings.Utf8.{valid_string}
use provider_kit.Errors.{Error, nil, plain, to_error, err_invalid_config}
use provider_kit.Provider.{Duration}

pub record SmtpConfig : Type 0 where
  pub host : Str
  pub port : ℤ
  pub username : Str
  pub password : Str
  pub from : Str
  pub from_name : Str
  pub use_tls : Bool
  pub use_start_tls : Bool
  pub skip_tls_verify : Bool
  pub timeout : Duration

abbrev pub default_timeout : Duration
default_timeout = pos 30_000_000_000

unfoldable pub default_smtp_config : SmtpConfig
default_smtp_config = record {
  host = [];
  port = pos 587;
  username = [];
  password = [];
  from = [];
  from_name = [];
  use_tls = false;
  use_start_tls = true;
  skip_tls_verify = false;
  timeout = default_timeout;
}

-- mail.Address
pub record Address : Type 0 where
  pub display_name : Str
  pub address : Str

-- What the code uses of net/mail and mime, and fmt.Sscanf with %d. A text that does not parse is `none`.
pub record MailLib : Type 0 where
  pub parse_address : Str → Option Address
  -- (*mail.Address).String
  pub address_string : Address → Str
  -- mime.QEncoding.Encode("UTF-8", s)
  pub q_encode : Str → Str
  pub scan_int : Str → Option ℤ

-- strings.ContainsAny(value, "\r\n\x00")
unfoldable pub contains_header_control : Str → Bool
unfolding contains_any
contains_header_control value = contains_any value (0x0d ∷ 0x0a ∷ 0x00 ∷ [])

unfoldable pub validate_header_value : Str → Str → Error
unfolding contains_header_control
validate_header_value field value =
    if contains_header_control value
    then plain (field ++ bytes " contains prohibited control characters")
    else if not (valid_string value)
    then plain (field ++ bytes " is not valid UTF-8")
    else nil

abbrev reject : Str → Error
reject message = to_error (err_invalid_config message)

-- From the check of c.FromName on.
unfoldable pub validate_rest : SmtpConfig → Error
validate_rest c =
    if contains_header_control c.from_name || not (valid_string c.from_name)
    then reject (bytes "SMTP from name is invalid")
    else if ltb_ℤ c.timeout (pos 0)
    then reject (bytes "SMTP timeout must not be negative")
    else nil

module _ (lib : MailLib) where
  -- (*SMTPConfig).Validate
  unfoldable pub validate : SmtpConfig → Error
  validate c =
      if c.host == []
      then reject (bytes "SMTP host is required")
      else if is_trimmable c.host
          || contains_header_control c.host
          || contains_any c.host (0x20 ∷ 0x09 ∷ [])
      then reject (bytes "SMTP host is invalid")
      else if not (ltb_ℤ (pos 0) c.port) || ltb_ℤ (pos 65535) c.port
      then reject (bytes "SMTP port is invalid")
      else if c.from == []
      then reject (bytes "SMTP from address is required")
      else if contains_header_control c.from
      then reject (bytes "SMTP from address is invalid")
      else elim (lib.parse_address c.from) [
        | none ↦ reject (bytes "SMTP from address is invalid")
        | some address ↦ validate_rest c
      ]

-- SMTPProvider. `D` stands for SMTPDialer.
pub record SmtpProvider (D : Type 0) : Type 0 where
  pub config : SmtpConfig
  pub name : Str
  pub dialer : Option D

-- (*SMTPProvider).SetDialer
unfoldable pub set_dialer : {D : Type 0} → D → SmtpProvider D → SmtpProvider D
set_dialer d p = record p { dialer = some d }

abbrev pub config_or_default : Option SmtpConfig → SmtpConfig
config_or_default none = default_smtp_config
config_or_default (some c) = c

-- The copy of the configuration: a timeout of 0 is replaced.
unfoldable pub with_timeout : SmtpConfig → SmtpConfig
with_timeout c = record c {
  timeout =
      if nat_eq (pos_part c.timeout + neg_part c.timeout) 0 then default_timeout else c.timeout;
}

abbrev override : Option Str → Str → Str
override none old = old
override (some new) old = new

-- value == "true" || value == "1"
abbrev override_flag : Option Str → Bool → Bool
override_flag none old = old
override_flag (some new) old = new == bytes "true" || new == bytes "1"

-- fmt.Sscanf(port, "%d", &config.Port), its error discarded
abbrev scanned : Option ℤ → ℤ → ℤ
scanned none old = old
scanned (some new) old = new

abbrev override_port : MailLib → Option Str → ℤ → ℤ
override_port lib none old = old
override_port lib (some text) old = scanned (lib.scan_int text) old

-- The configuration that the settings make of DefaultSMTPConfig.
unfoldable pub smtp_config_from_map : MailLib → GoMap Str → SmtpConfig
smtp_config_from_map lib m = record default_smtp_config {
  host = override (get (bytes "host") m) default_smtp_config.host;
  port = override_port lib (get (bytes "port") m) default_smtp_config.port;
  username = override (get (bytes "username") m) default_smtp_config.username;
  password = override (get (bytes "password") m) default_smtp_config.password;
  from = override (get (bytes "from") m) default_smtp_config.from;
  from_name = override (get (bytes "from_name") m) default_smtp_config.from_name;
  use_tls = override_flag (get (bytes "use_tls") m) default_smtp_config.use_tls;
  use_start_tls = override_flag (get (bytes "use_starttls") m) default_smtp_config.use_start_tls;
  skip_tls_verify =
      override_flag (get (bytes "skip_tls_verify") m) default_smtp_config.skip_tls_verify;
}

module _ {D : Type 0} (lib : MailLib) where
  -- What follows the call of `configCopy.Validate()`.
  unfoldable pub constructed : Error → SmtpConfig → Option (SmtpProvider D) × Error
  constructed nil c = (some (record { config = c; name = bytes "smtp"; dialer = none }), nil)
  constructed err c = (none, err)

  -- NewSMTPProvider; a nil configuration is `none`.
  unfoldable pub new_smtp_provider : Option SmtpConfig → Option (SmtpProvider D) × Error
  unfolding constructed validate with_timeout
  new_smtp_provider config =
      let c = with_timeout (config_or_default config) in constructed (validate lib c) c

  -- NewSMTPProviderFromMap
  unfoldable pub new_smtp_provider_from_map : GoMap Str → Option (SmtpProvider D) × Error
  unfolding new_smtp_provider smtp_config_from_map
  new_smtp_provider_from_map m = new_smtp_provider (some (smtp_config_from_map lib m))
