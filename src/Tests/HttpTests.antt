-- ===== src/Tests/HttpTests.antt =====
-- http.go: a toy network, on which a URL is its host and the scheme is always https.
use provider_kit.Base.{
  ℕ, ◌<◌, suc, Str, bytes, ◌==◌, true, some, [], ◌∷◌, ◌≡◌, ◌≢◌, ◌⊎◌, max_int, inc_int, refl, arith,
  pos, if◌then◌else◌,
}
use provider_kit.GoMap.{GoMap, get, delete, put_all}
use provider_kit.Message.{validate}
use provider_kit.Errors.{Error, nil}
use provider_kit.SendResult.{copy_map}
use provider_kit.Http.Config.{
  NetLib, parsed, HttpConfig, default_http_config, redirect_same_origin, strip, check_redirect,
  build_provider, new_http_provider,
}
use provider_kit.Http.Exchange.{
  Request, refused, failed, request_headers, new_send_request, read_send_response,
}
use provider_kit.Http.{
  HttpSendResponse, decoded, HttpWorld, success_result, serialized, execute, responded, read_reply,
  successful, idempotency_key, send,
}
use provider_kit.Http.Redirects.{HasNo, check_redirect_safe, Targets, new_send_request-Targets}
use provider_kit.Http.Limits.{read_send_response_lem}
use provider_kit.Provider.{IsConsistent}
use provider_kit.Http.Replies.{send-IsConsistent}
use provider_kit.Http.Delivery.{Delivered, send-Delivered}
use provider_kit.Http.Construction.{IsBuilt, new_http_provider-IsBuilt}
use provider_kit.Provider.{Provider}
use provider_kit.Registry.{new_registry, create_provider, register_factory}
use provider_kit.Registry.Sends.{Serves}
use provider_kit.Http.{http_provider, http_provider_factory}
use provider_kit.Http.Config.{http_config_from_map, new_http_provider_from_map}
use provider_kit.Composition.Factories.{with_factory, http_provider_factory-Serves}
use provider_kit.Tests.Samples.{background, message}

abbrev net : NetLib Str
net = record {
  parse = λ text. parsed text;
  scheme = λ url. bytes "https";
  host = λ url. url;
  resolve_reference = λ base ref. if ref == [] then base else ref;
  to_string = λ url. url;
  equal_fold = λ s t. s == t;
  canonical_key = λ key. key;
}

abbrev config : HttpConfig
config = record default_http_config {
  base_url = bytes "api";
  send_endpoint = [];
  api_key = bytes "secret";
  redirect = redirect_same_origin;
  max_response_bytes = pos 4;
}

abbrev accepted : Str → Error
accepted url = nil

abbrev answer : HttpSendResponse
answer = record {
  ok = true;
  message_id = bytes "m1";
  provider = [];
  error_code = [];
  error_message = [];
}

-- The world counts the requests.
abbrev world : HttpWorld ℕ
world = record {
  marshal = λ request. decoded request.to;
  unmarshal = λ text. decoded answer;
  format_int = λ n. [];
  do_request = λ ctx req n. (
    decoded
        (record { status_code = pos 200; body = record { content = bytes "{}"; ends_in = nil } }),
    suc n,
  );
  new_uuid = λ n. (bytes "u1", n);
  now = λ n. (pos n, n);
}

abbrev signed : GoMap Str
signed = (bytes "Authorization", bytes "Bearer t") ∷ (bytes "X-API-Key", bytes "secret") ∷ []

check_redirect_safe_example :
    (config.redirect ≢ bytes "deny")
    × (bytes "https" == bytes "https" ≡ true)
    × (bytes "api" == bytes "api" ≡ true)
    × HasNo net config (bytes "Authorization") []
    × ((config.api_key_header ≡ []) ⊎ HasNo net config config.api_key_header [])
unfolding default_http_config check_redirect strip bytes ◌==◌ delete
check_redirect_safe_example =
    check_redirect_safe net config (bytes "api") (bytes "api") [] signed [] refl

abbrev request : Request
request = record {
  url = bytes "api";
  body = bytes "hi";
  headers = request_headers net accepted config (bytes "k1");
}

new_send_request-Targets_example : Targets net config request
unfolding default_http_config new_send_request bytes ◌==◌
new_send_request-Targets_example =
    new_send_request-Targets net config accepted (bytes "hi") (bytes "k1") request refl

read_send_response_lem_example :
    read_send_response config (record { content = bytes "okay!"; ends_in = nil })
    ≡ refused (failed config (bytes "provider response exceeds size limit") nil)
unfolding default_http_config bytes max_int
read_send_response_lem_example =
    read_send_response_lem config 4 (record { content = bytes "okay!"; ends_in = nil }) refl
      (omega arith) refl

send-IsConsistent_example :
    IsConsistent (send net accepted world config background (some message) 0).0
send-IsConsistent_example = send-IsConsistent net accepted world config background message 0

limited : config.max_response_bytes ≡ pos 4
limited = refl

small : 4 < max_int
unfolding max_int
small = omega arith

send-Delivered_example :
    Delivered net accepted world config 4 limited (omega arith) small background message 0
unfolding send new_send_request read_send_response default_http_config bytes ◌==◌ max_int validate
    serialized execute responded read_reply inc_int successful success_result idempotency_key
send-Delivered_example =
    send-Delivered net accepted world config 4 limited (omega arith) small background message 0
      (some (success_result net accepted world config (pos 1) answer)) refl

new_http_provider-IsBuilt_example : IsBuilt net (build_provider config)
unfolding new_http_provider default_http_config bytes ◌==◌ copy_map put_all
new_http_provider-IsBuilt_example =
    new_http_provider-IsBuilt net (some config) (build_provider config) refl

abbrev settings : GoMap Str
settings = (bytes "base_url", bytes "api") ∷ (bytes "name", bytes "api1") ∷ []

abbrev made_provider : Provider ℕ
made_provider =
    http_provider net accepted world (build_provider (http_config_from_map settings)).config

http_provider_factory-Serves_example :
    Serves made_provider
      (with_factory (bytes "api1") (http_provider_factory net accepted world) new_registry)
unfolding http_provider http_provider_factory new_http_provider_from_map new_http_provider
    http_config_from_map default_http_config bytes ◌==◌ copy_map put_all create_provider
    register_factory get new_registry
http_provider_factory-Serves_example =
    http_provider_factory-Serves net accepted world (bytes "api1") settings new_registry
      made_provider 0 0 (λ e. cc e) refl
