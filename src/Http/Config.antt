-- ===== src/Http/Config.antt =====
-- http.go: HTTPConfig, its validation, the defaults, and the redirect policy. The package net/url, the
-- case folding of `strings` and the canonical form of header names are a parameter.
use provider_kit.Base.{
  Str, bytes, ◌==◌, Bool, false, not, ◌&&◌, ◌||◌, Option, none, some, List, [], ◌∷◌, ◌++◌, ℤ, pos,
  ltb_ℤ, if◌then◌else◌,
}
use provider_kit.GoMap.{GoMap, get, delete}
use provider_kit.Channel.{Channel, channel_http}
use provider_kit.Errors.{Error, nil, plain, to_error, err_invalid_config}
use provider_kit.Provider.{Duration}
use provider_kit.SendResult.{copy_map}

abbrev pub RedirectPolicy : Type 0
RedirectPolicy = Str

abbrev pub redirect_deny : RedirectPolicy
redirect_deny = bytes "deny"

abbrev pub redirect_same_origin : RedirectPolicy
redirect_same_origin = bytes "same-origin"

abbrev pub default_max_response_bytes : ℤ
default_max_response_bytes = pos 1_048_576

abbrev pub min_provider_timeout : Duration
min_provider_timeout = pos 30_000_000_000

-- url.Parse
pub data Parsed (U : Type 0) : Type 0 where
  parsed : U → Parsed U
  malformed : Str → Parsed U

pub record NetLib (U : Type 0) : Type 0 where
  pub parse : Str → Parsed U
  pub scheme : U → Str
  pub host : U → Str
  pub resolve_reference : U → U → U
  pub to_string : U → Str
  -- strings.EqualFold
  pub equal_fold : Str → Str → Bool
  -- textproto.CanonicalMIMEHeaderKey, which Header.Set and Header.Del apply
  pub canonical_key : Str → Str

pub record HttpConfig : Type 0 where
  pub base_url : Str
  pub send_endpoint : Str
  pub api_key : Str
  pub api_key_header : Str
  pub timeout : Duration
  pub headers : Option (GoMap Str)
  pub channel_type : Channel
  pub provider_name : Str
  pub max_response_bytes : ℤ
  pub redirect : RedirectPolicy
  pub require_https : Bool

unfoldable pub default_http_config : HttpConfig
default_http_config = record {
  base_url = [];
  send_endpoint = bytes "/v1/send";
  api_key = [];
  api_key_header = bytes "X-API-Key";
  timeout = min_provider_timeout;
  headers = some [];
  channel_type = channel_http;
  provider_name = bytes "http";
  max_response_bytes = default_max_response_bytes;
  redirect = redirect_deny;
  require_https = false;
}

abbrev reject : Str → Error
reject message = to_error (err_invalid_config message)

module _ {U : Type 0} (net : NetLib U) where
  -- The checks of a base URL that parses.
  unfoldable pub validate_url : HttpConfig → U → Error
  validate_url c u =
      if not (net.scheme u == bytes "http") && not (net.scheme u == bytes "https")
      then reject (bytes "HTTP base URL must use http or https scheme")
      else if net.host u == []
      then reject (bytes "HTTP base URL must include a host")
      else if c.require_https && not (net.scheme u == bytes "https")
      then reject (bytes "HTTP base URL must use https scheme")
      else if c.redirect == [] || c.redirect == redirect_deny || c.redirect == redirect_same_origin
      then nil
      else reject (bytes "HTTP redirect policy must be deny or same-origin")

  -- (*HTTPConfig).Validate
  unfoldable pub validate : HttpConfig → Error
  unfolding validate_url
  validate c =
      if c.base_url == []
      then reject (bytes "HTTP base URL is required")
      else elim (net.parse c.base_url) [
        | malformed text ↦ reject (bytes "HTTP base URL is not a valid URL: " ++ text)
        | parsed u ↦ validate_url c u
      ]

-- What NewHTTPProvider puts in the place of zero values. The configuration is a copy.
unfoldable pub with_defaults : HttpConfig → HttpConfig
with_defaults c = record c {
  max_response_bytes =
      if ltb_ℤ (pos 0) c.max_response_bytes
      then c.max_response_bytes
      else default_max_response_bytes;
  redirect = if c.redirect == [] then redirect_deny else c.redirect;
  api_key_header = if c.api_key_header == [] then bytes "X-API-Key" else c.api_key_header;
}

-- HTTPProvider, with the timeout of its client.
pub record HttpProvider : Type 0 where
  pub config : HttpConfig
  pub client_timeout : Duration

abbrev override : Option Str → Str → Str
override none old = old
override (some new) old = new

abbrev pub config_or_default : Option HttpConfig → HttpConfig
config_or_default none = default_http_config
config_or_default (some c) = c

abbrev pub finish : Error → HttpProvider → Option HttpProvider × Error
finish nil p = (some p, nil)
finish err p = (none, err)

unfoldable pub build_provider : HttpConfig → HttpProvider
unfolding with_defaults
build_provider c = record {
  config = with_defaults c;
  client_timeout = if ltb_ℤ (pos 0) c.timeout then c.timeout else min_provider_timeout;
}

-- The configuration that the settings make of DefaultHTTPConfig.
unfoldable pub http_config_from_map : GoMap Str → HttpConfig
http_config_from_map m = record default_http_config {
  base_url = override (get (bytes "base_url") m) default_http_config.base_url;
  send_endpoint = override (get (bytes "send_endpoint") m) default_http_config.send_endpoint;
  api_key = override (get (bytes "api_key") m) default_http_config.api_key;
  api_key_header = override (get (bytes "api_key_header") m) default_http_config.api_key_header;
  channel_type = override (get (bytes "channel") m) default_http_config.channel_type;
  provider_name = override (get (bytes "name") m) default_http_config.provider_name;
}

module _ {U : Type 0} (net : NetLib U) where
  -- NewHTTPProvider; a nil configuration is `none`.
  unfoldable pub new_http_provider : Option HttpConfig → Option HttpProvider × Error
  unfolding validate build_provider
  new_http_provider config =
      let c = config_or_default config in
      let copy : HttpConfig = record c { headers = copy_map c.headers } in
      finish (validate net copy) (build_provider copy)

  -- NewHTTPProviderFromMap
  unfoldable pub new_http_provider_from_map : GoMap Str → Option HttpProvider × Error
  unfolding new_http_provider http_config_from_map
  new_http_provider_from_map m = new_http_provider (some (http_config_from_map m))

abbrev pub err_redirect_blocked : Error
err_redirect_blocked = plain (bytes "provider redirect blocked by policy")

module _ {U : Type 0} (net : NetLib U) where
  -- Header.Del
  unfoldable pub del_header : Str → GoMap Str → GoMap Str
  del_header key headers = delete (net.canonical_key key) headers

  -- The credentials are taken off the redirected request.
  unfoldable pub strip : HttpConfig → GoMap Str → GoMap Str
  unfolding del_header
  strip c headers =
      let bare = del_header (bytes "Authorization") headers in
      if c.api_key_header == [] then bare else del_header c.api_key_header bare

  -- The function of makeCheckRedirect: the URL and headers of the request, and the URLs of the
  -- requests made already, the oldest first. The second result is the headers afterwards.
  unfoldable pub check_redirect : HttpConfig → U → GoMap Str → List U → Error × GoMap Str
  unfolding strip
  check_redirect c url headers [] = (nil, headers)
  check_redirect c url headers (orig ∷ via) =
      if c.redirect == redirect_deny
      then (err_redirect_blocked, headers)
      else if not (net.equal_fold (net.scheme url) (net.scheme orig))
          || not (net.equal_fold (net.host url) (net.host orig))
      then (err_redirect_blocked, headers)
      else (nil, strip c headers)
