-- ===== src/Message.antt =====
-- message.go: messages and their builders. A nil map is `none`.
pub mod Mask
pub mod Masking
pub mod Clone
use provider_kit.Base.{Str, bytes, ◌==◌, Bool, not, Option, none, some, [], ◌++◌, if◌then◌else◌}
use provider_kit.GoMap.{GoMap, put}
use provider_kit.Errors.{Error, nil, to_error, err_invalid_destination}
use provider_kit.SendResult.{put_metadata, copy_map}
use Mask.{mask_destination}

pub record Message : Type 0 where
  pub to : Str
  pub subject : Str
  pub body : Str
  pub template : Str
  pub params : Option (GoMap Str)
  pub code : Str
  pub locale : Str
  pub idempotency_key : Str
  pub metadata : Option (GoMap Str)

unfoldable pub new_message : Str → Message
new_message to = record {
  to = to;
  subject = [];
  body = [];
  template = [];
  params = some [];
  code = [];
  locale = [];
  idempotency_key = [];
  metadata = some [];
}

unfoldable pub with_subject : Str → Message → Message
with_subject subject m = record m { subject = subject }

unfoldable pub with_body : Str → Message → Message
with_body body m = record m { body = body }

unfoldable pub with_template : Str → Message → Message
with_template template m = record m { template = template }

unfoldable pub with_params : Option (GoMap Str) → Message → Message
with_params params m = record m { params = params }

unfoldable pub with_param : Str → Str → Message → Message
with_param key value m = record m { params = put_metadata key value m.params }

unfoldable pub with_code : Str → Message → Message
with_code code m = record m { code = code }

unfoldable pub with_locale : Str → Message → Message
with_locale locale m = record m { locale = locale }

unfoldable pub with_idempotency_key : Str → Message → Message
with_idempotency_key key m = record m { idempotency_key = key }

unfoldable pub with_metadata : Option (GoMap Str) → Message → Message
with_metadata metadata m = record m { metadata = metadata }

unfoldable pub add_metadata : Str → Str → Message → Message
add_metadata key value m = record m { metadata = put_metadata key value m.metadata }

unfoldable pub validate : Message → Error
validate m =
    if m.to == []
    then to_error (err_invalid_destination (bytes "destination (To) is required"))
    else nil

-- (*Message).Clone: the receiver may be nil.
unfoldable pub clone : Option Message → Option Message
clone none = none
clone (some m) = some (record {
  to = m.to;
  subject = m.subject;
  body = m.body;
  template = m.template;
  params = copy_map m.params;
  code = m.code;
  locale = m.locale;
  idempotency_key = m.idempotency_key;
  metadata = copy_map m.metadata;
})

format_bool : Bool → Str
format_bool b = if b then bytes "true" else bytes "false"

-- (*Message).String
unfoldable pub string : Message → Str
unfolding format_bool
string m =
    bytes "Message{To: "
    ++ mask_destination m.to
    ++ bytes ", Template: "
    ++ m.template
    ++ bytes ", Locale: "
    ++ m.locale
    ++ bytes ", HasCode: "
    ++ format_bool (not (m.code == []))
    ++ bytes "}"
