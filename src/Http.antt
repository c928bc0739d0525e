-- ===== src/Http.antt =====
-- http.go: HTTPProvider.Send. The HTTP client, encoding/json, the clock and the generator of
-- identifiers are parameters.
pub mod Config
pub mod Exchange
pub mod Construction
pub mod Redirects
pub mod Limits
pub mod Replies
pub mod Delivery
use provider_kit.Base.{
  ℕ, Str, bytes, ◌==◌, Bool, true, false, not, ◌&&◌, ◌||◌, Option, none, some, List, [], ◌∷◌, ◌++◌,
  ℤ, pos, ltb_ℤ, if◌then◌else◌,
}
use provider_kit.GoMap.{GoMap}
use provider_kit.Channel.{Channel}
use provider_kit.Errors.Reason
use provider_kit.Errors.Reason.{ErrorReason}
use provider_kit.Errors.{
  Error, nil, ProviderError, to_error, err_provider_down, with_provider, normalize_error,
}
use provider_kit.SendResult.{
  SendResult, Time, new_success_result, new_failure_result, with_metadata,
}
use provider_kit.Message
use provider_kit.Message.{Message}
use provider_kit.Provider.{Context, Reply, Provider}
use provider_kit.Provider.Actions.{
  Action, Outcome, returned, panicked, pure, panic, total, continue, ◌>>=◌,
}
use provider_kit.Registry.{ProviderFactory, made}
use Config.{NetLib, HttpConfig, HttpProvider, new_http_provider_from_map}
use Exchange.{Request, Body, Built, built, refused, failed, new_send_request, read_send_response}

pub record HttpSendRequest : Type 0 where
  pub channel : Str
  pub to : Str
  pub template : Str
  pub params : Option (GoMap Str)
  pub subject : Str
  pub body : Str
  pub locale : Str
  pub idempotency_key : Str
  pub timeout_seconds : ℤ

pub record HttpSendResponse : Type 0 where
  pub ok : Bool
  pub message_id : Str
  pub provider : Str
  pub error_code : Str
  pub error_message : Str

pub record Response : Type 0 where
  pub status_code : ℤ
  pub body : Body

pub data Decoded (A : Type 0) : Type 0 where
  decoded : A → Decoded A
  invalid : Error → Decoded A

-- The code outside the package: json.Marshal, json.Unmarshal, strconv, httpClient.Do, uuid, the clock.
pub record HttpWorld (W : Type 0) : Type 0 where
  pub marshal : HttpSendRequest → Decoded Str
  pub unmarshal : Str → Decoded HttpSendResponse
  pub format_int : ℤ → Str
  pub do_request : Context → Request → W → Decoded Response × W
  pub new_uuid : W → Str × W
  pub now : W → Time × W

-- The switch of mapErrorCode.
unfoldable pub reason_of_code : Str → ErrorReason
reason_of_code code =
    if code == bytes "rate_limited"
    then Reason.rate_limited
    else if code == bytes "invalid_destination"
    then Reason.invalid_destination
    else if code == bytes "timeout"
    then Reason.timeout
    else if code == bytes "unauthorized"
    then Reason.unauthorized
    else if code == bytes "provider_down"
    then Reason.provider_down
    else if code == bytes "idempotency_conflict"
    then Reason.idempotency_conflict
    else Reason.send_failed

unfoldable pub map_error_code : HttpConfig → Str → Str → ProviderError
unfolding reason_of_code
map_error_code c code message = record {
  reason = reason_of_code code;
  message = message;
  provider_name = c.provider_name;
  channel = c.channel_type;
  err = nil;
}

abbrev pub is_success_status : ℤ → Bool
is_success_status code = not (ltb_ℤ code (pos 200)) && ltb_ℤ code (pos 300)

module _ {U W : Type 0} (net : NetLib U) (new_request : Str → Error) (world : HttpWorld W)
    (c : HttpConfig) where
  -- return NewFailureResult(…, providerErr), providerErr
  unfoldable pub fail : ProviderError → Action W Reply
  fail e = do
    now ← total world.now
    pure (some (new_failure_result now c.provider_name c.channel_type (some e)), to_error e)

  -- A status outside 200 to 299.
  unfoldable pub unsuccessful : ℤ → Decoded HttpSendResponse → ProviderError
  unsuccessful status (decoded r) =
      if not r.ok && not (r.error_code == [])
      then map_error_code c r.error_code r.error_message
      else failed c (bytes "provider returned HTTP " ++ world.format_int status) nil
  unsuccessful status (invalid err) =
      failed c (bytes "provider returned HTTP " ++ world.format_int status) nil

  unfoldable pub success_result : Time → HttpSendResponse → SendResult
  success_result now r =
      let result = new_success_result now c.provider_name c.channel_type r.message_id in
      if r.provider == []
      then result
      else with_metadata (bytes "upstream_provider") r.provider result

  -- A status from 200 to 299.
  unfoldable pub successful : Decoded HttpSendResponse → Action W Reply
  unfolding success_result
  successful (invalid err) = fail (failed c (bytes "failed to parse response") err)
  successful (decoded r) =
      if r.ok
      then (do now ← total world.now; pure (some (success_result now r), nil))
      else fail (map_error_code c r.error_code r.error_message)

  unfoldable pub read_reply : ℤ → Built Str → Action W Reply
  read_reply status (refused e) = fail e
  read_reply status (built content) =
      if is_success_status status
      then successful (world.unmarshal content)
      else fail (unsuccessful status (world.unmarshal content))

  unfoldable pub responded : Decoded Response → Action W Reply
  responded (invalid err) = fail (
      with_provider (err_provider_down (bytes "HTTP request failed") err) c.provider_name
        c.channel_type)
  responded (decoded r) = read_reply r.status_code (read_send_response c r.body)

  unfoldable pub execute : Context → Built Request → Action W Reply
  execute ctx (refused e) = fail e
  execute ctx (built req) = do response ← total (world.do_request ctx req); responded response

  unfoldable pub serialized : Context → Str → Decoded Str → Action W Reply
  serialized ctx key (invalid err) = fail (failed c (bytes "failed to serialize request") err)
  serialized ctx key (decoded body) = execute ctx (new_send_request net new_request c body key)

  unfoldable pub request_body : Message → Str → HttpSendRequest
  request_body msg key = record {
    channel = c.channel_type;
    to = msg.to;
    template = msg.template;
    params = msg.params;
    subject = msg.subject;
    body = msg.body;
    locale = msg.locale;
    idempotency_key = key;
    timeout_seconds = pos 0;
  }

  unfoldable pub idempotency_key : Message → W → Str × W
  idempotency_key msg w =
      if msg.idempotency_key == [] then world.new_uuid w else (msg.idempotency_key, w)

  -- What follows `msg.Validate()`; its error is written through by NormalizeError.
  unfoldable pub validated : Error → Context → Message → Action W Reply
  validated nil ctx msg = do
    key ← total (idempotency_key msg)
    serialized ctx key (world.marshal (request_body msg key))
  validated err ctx msg = do
    now ← total world.now
    let (e, err') = normalize_error err c.channel_type c.provider_name
    pure (some (new_failure_result now c.provider_name c.channel_type e), err')

  -- (*HTTPProvider).Send; Validate reads through the message.
  unfoldable pub send : Context → Option Message → Action W Reply
  unfolding validated
  send ctx none = panic
  send ctx (some msg) = validated (Message.validate msg) ctx msg

  -- The provider interface.
  unfoldable pub http_provider : Provider W
  http_provider = record {
    send = send;
    channel = c.channel_type;
    name = c.provider_name;
    validate = Config.validate net c;
  }

module _ {U W : Type 0} (net : NetLib U) (new_request : Str → Error) (world : HttpWorld W) where
  unfoldable pub http_provider_factory : ProviderFactory W
  unfolding new_http_provider_from_map http_provider
  http_provider_factory config = pure (
      made (λ (p : HttpProvider). http_provider net new_request world p.config)
        (new_http_provider_from_map net config))
