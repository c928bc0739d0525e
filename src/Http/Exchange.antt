-- ===== src/Http/Exchange.antt =====
-- http.go: the request that is built (newSendRequest) and the response that is read
-- (readSendResponse).
use provider_kit.Base.{
  Str, bytes, ◌==◌, Bool, ◌&&◌, Option, none, some, [], ◌∷◌, ℤ, pos, pos_part, ltb, ltb_ℤ, inc_int,
  max_int, if◌then◌else◌,
}
use provider_kit.GoMap.{GoMap, put}
use provider_kit.Errors.{Error, nil, plain, ProviderError, err_send_failed, with_provider}
use provider_kit.Message.Mask.{length, take}
use provider_kit.Http.Config.{NetLib, parsed, malformed, HttpConfig, default_max_response_bytes}

-- A request as http.NewRequestWithContext builds it.
pub record Request : Type 0 where
  pub url : Str
  pub body : Str
  pub headers : GoMap Str

-- A ProviderError with the provider's name and channel.
abbrev pub failed : HttpConfig → Str → Error → ProviderError
failed c message err = with_provider (err_send_failed message err) c.provider_name c.channel_type

pub data Built (A : Type 0) : Type 0 where
  built : A → Built A
  refused : ProviderError → Built A

-- resolved.Scheme and resolved.Host against the base URL
abbrev pub same_origin : {U : Type 0} → NetLib U → U → U → Bool
same_origin net u base =
    net.equal_fold (net.scheme u) (net.scheme base) && net.equal_fold (net.host u) (net.host base)

module _ {U : Type 0} (net : NetLib U) (new_request : Str → Error) (c : HttpConfig) where
  -- Header.Set
  set_header : Str → Str → GoMap Str → GoMap Str
  set_header key value headers = put (net.canonical_key key) value headers

  -- for k, v := range p.config.Headers { req.Header.Set(k, v) }
  set_all : GoMap Str → GoMap Str → GoMap Str
  unfolding set_header
  set_all [] headers = headers
  set_all ((k, v) ∷ extra) headers = set_all extra (set_header k v headers)

  abbrev extra_headers : Option (GoMap Str) → GoMap Str
  extra_headers none = []
  extra_headers (some m) = m

  unfoldable pub request_headers : Str → GoMap Str
  unfolding set_all
  request_headers key =
      let typed = set_header (bytes "Content-Type") (bytes "application/json") [] in
      let keyed = set_header (bytes "Idempotency-Key") key typed in
      let signed = if c.api_key == [] then keyed else set_header c.api_key_header c.api_key keyed in
      set_all (extra_headers c.headers) signed

  -- The end of newSendRequest: `new_request` is the error of http.NewRequestWithContext.
  unfoldable pub create_request : Str → Str → Str → Built Request
  unfolding request_headers
  create_request url body key = elim (new_request url) [
    | nil ↦ built (record { url = url; body = body; headers = request_headers key })
    | err ↦ refused (failed c (bytes "failed to create request") err)
  ]

  unfoldable pub resolve : U → U → Str → Str → Built Request
  unfolding create_request
  resolve base ref body key =
      if same_origin net (net.resolve_reference base ref) base
      then create_request (net.to_string (net.resolve_reference base ref)) body key
      else refused (failed c (bytes "send endpoint resolves to a different origin") nil)

  unfoldable pub new_send_request : Str → Str → Built Request
  unfolding resolve
  new_send_request body key = elim (net.parse c.base_url) [
    | malformed text ↦ refused (failed c (bytes "invalid base URL") (plain text))
    | parsed base ↦ elim (net.parse c.send_endpoint) [
      | malformed text ↦ refused (failed c (bytes "invalid send endpoint") (plain text))
      | parsed ref ↦ resolve base ref body key
    ]
  ]

-- A response body as a stream: its bytes, and the error in which it ends, nil at the end of file.
pub record Body : Type 0 where
  pub content : Str
  pub ends_in : Error

-- io.ReadAll(io.LimitReader(body, n)): at most n bytes are read, and no more once n are there.
unfoldable pub read_limited : ℤ → Body → Str × Error
read_limited n body =
    if ltb (length body.content) (pos_part n)
    then (body.content, body.ends_in)
    else (take (pos_part n) body.content, nil)

abbrev pub effective_limit : HttpConfig → ℤ
effective_limit c =
    if ltb_ℤ (pos 0) c.max_response_bytes then c.max_response_bytes else default_max_response_bytes

-- readLimit: one byte more, unless that overflows.
abbrev pub read_limit : ℤ → ℤ
read_limit limit = if ltb_ℤ limit (pos max_int) then inc_int limit else limit

unfoldable pub within : HttpConfig → ℤ → Str × Error → Built Str
within c limit (content, nil) =
    if ltb_ℤ limit (pos (length content))
    then refused (failed c (bytes "provider response exceeds size limit") nil)
    else built content
within c limit (content, err) = refused (failed c (bytes "failed to read response") err)

unfoldable pub read_send_response : HttpConfig → Body → Built Str
unfolding within read_limited
read_send_response c body =
    within c (effective_limit c) (read_limited (read_limit (effective_limit c)) body)
