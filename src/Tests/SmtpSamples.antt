-- ===== src/Tests/SmtpSamples.antt =====
-- smtp.go: a mail library, a network with one socket, and a provider, for the tests.
use provider_kit.Base.{
  ℕ, Str, bytes, nat_eq, Bool, true, false, ◌&&◌, none, some, [], ◌∷◌, ◌≡◌, ◌≢◌, refl, arith, pos,
  if◌then◌else◌,
}
use provider_kit.Errors.{Error, nil, plain}
use provider_kit.Message.{Message}
use provider_kit.Smtp.Config.{SmtpConfig, default_smtp_config, Address, MailLib, SmtpProvider}
use provider_kit.Smtp.Connection.{Network, base, Call, close_conn, Dialed, dialed, failed}
use provider_kit.Smtp.Headers.Clean.{IsClean, WritesClean}
use provider_kit.Smtp.Release.Dialing.{Releases}
use provider_kit.Tests.Samples.{message}

abbrev without_breaks : Str → Str
without_breaks [] = []
without_breaks (c ∷ s) =
    let rest = without_breaks s in
    if nat_eq c 0x0d then rest else if nat_eq c 0x0a then rest else c ∷ rest

without_breaks-IsClean : (s : Str) → IsClean (without_breaks s)
without_breaks-IsClean [] = tt
without_breaks-IsClean (c ∷ s) = ground (arith, without_breaks-IsClean s)

-- An address is its own text.
abbrev pub mail_lib : MailLib
mail_lib = record {
  parse_address = λ text. some (record { display_name = []; address = text });
  address_string = λ a. a.address;
  q_encode = without_breaks;
  scan_int = λ text. none;
}

pub mail_lib-WritesClean : WritesClean mail_lib
mail_lib-WritesClean = record {
  parse_clean = λ s a clean e. ground (arith, clean);
  string_clean = λ a clean. clean;
  encode_clean = without_breaks-IsClean;
}

-- The world is whether the one socket, 0, is open.
abbrev pub after_call : ℕ → Call → Bool → Bool
after_call conn close_conn up = if nat_eq conn 0 then false else up
after_call conn call up = up

abbrev pub try_dial : Bool → Dialed ℕ × Bool
try_dial true = (failed (plain (bytes "busy")), true)
try_dial false = (dialed 0, true)

abbrev pub one_socket : Network ℕ Bool
one_socket = record {
  dial_context = λ ctx addr t up. try_dial up;
  call = λ over call up. (nil, after_call (base over) call up);
  now = λ up. (pos 0, up);
  new_uuid = λ up. (bytes "u1", up);
}

abbrev pub is_up : Bool → ℕ → Bool
is_up up conn = up && nat_eq conn 0

try_dial-new : (up : Bool) (conn : ℕ) → (try_dial up).0 ≡ dialed conn → is_up up conn ≡ false
try_dial-new true conn h = cc h
try_dial-new false conn h = refl

try_dial-others :
    (up : Bool) (conn d : ℕ)
    → (try_dial up).0 ≡ dialed conn
    → conn ≢ d
    → is_up (try_dial up).1 d ≡ is_up up d
try_dial-others true conn d h other = refl
try_dial-others false conn d h other = ground arith

try_dial-failed :
    (up : Bool) (e : Error) (d : ℕ)
    → (try_dial up).0 ≡ failed e
    → is_up (try_dial up).1 d ≡ is_up up d
try_dial-failed true e d h = refl
try_dial-failed false e d h = cc h

after_call-others :
    (conn d : ℕ) (call : Call) (up : Bool)
    → conn ≢ d
    → is_up (after_call conn call up) d ≡ is_up up d
after_call-others conn d close_conn up other = ground arith
after_call-others conn d call up other = refl

after_call-closes : (conn : ℕ) (up : Bool) → is_up (after_call conn close_conn up) conn ≡ false
after_call-closes conn up = ground arith

pub one_socket-Releases : Releases one_socket is_up
one_socket-Releases = record {
  dial_new = λ ctx addr t. try_dial-new;
  dial_others = λ ctx addr t. try_dial-others;
  dial_failed = λ ctx addr t. try_dial-failed;
  call_others = λ over. after_call-others (base over);
  closes = after_call-closes;
  uuid_same = λ w d. refl;
  now_same = λ w d. refl;
}

abbrev pub config : SmtpConfig
config = record default_smtp_config {
  host = bytes "mail";
  username = bytes "u";
  password = bytes "p";
  from = bytes "a@b";
}

abbrev pub provider : SmtpProvider (Unit {0})
provider = record { config = config; name = bytes "smtp"; dialer = none }

abbrev pub sender : Address
sender = record { display_name = []; address = bytes "a@b" }

-- A subject that tries to add a header is refused; this one is plain.
abbrev pub greeting : Message
greeting = record message { to = bytes "x@y"; subject = bytes "hi"; body = bytes "hello" }
