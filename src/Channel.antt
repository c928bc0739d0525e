-- ===== src/Channel.antt =====
-- channel.go: delivery channels. `Channel` is a string type, so any text is a channel.
use provider_kit.Base.{Str, bytes, ◌==◌, Bool, ◌||◌, List, [], ◌∷◌}

abbrev pub Channel : Type 0
Channel = Str

abbrev pub channel_sms : Channel
channel_sms = bytes "sms"

abbrev pub channel_email : Channel
channel_email = bytes "email"

abbrev pub channel_http : Channel
channel_http = bytes "http"

abbrev pub channel_ding_talk : Channel
channel_ding_talk = bytes "dingtalk"

unfoldable pub is_valid : Channel → Bool
is_valid c = c == channel_sms || c == channel_email || c == channel_http || c == channel_ding_talk

unfoldable pub supported_channels : List Channel
supported_channels = channel_sms ∷ channel_email ∷ channel_http ∷ channel_ding_talk ∷ []
