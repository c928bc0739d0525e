-- ===== src/Http/Delivery.antt =====
-- http.go: what a nil error of HTTPProvider.Send says.
use provider_kit.Base.{
  ℕ, ◌≤◌, ◌<◌, ◌≤ℤ◌, ◌<ℤ◌, arith, pos, max_int, Str, true, Option, some, ◌≡◌, ◌≢◌, refl, inl, inr,
  Bool-cases, ℤ,
}
use provider_kit.Errors.{Error, nil, ProviderError}
use provider_kit.Errors.Chain.{normalize_error-ne_nil}
use provider_kit.SendResult.{SendResult}
use provider_kit.Message
use provider_kit.Message.{Message}
use provider_kit.Provider.{Context}
use provider_kit.Provider.Actions.{returned}
use provider_kit.Http.Config.{NetLib, HttpConfig}
use provider_kit.Http.Exchange.{
  Request, Built, built, refused, new_send_request, read_send_response,
}
use provider_kit.Http.{
  HttpSendResponse, Response, Decoded, decoded, invalid, HttpWorld, is_success_status, fail,
  successful, read_reply, responded, execute, serialized, request_body, idempotency_key, validated,
  send,
}
use provider_kit.Http.Limits.{read_accepted}
use provider_kit.Message.Mask.{length}
use provider_kit.Http.Redirects.{Targets, new_send_request-Targets}

module _ {U W : Type 0} (net : NetLib U) (new_request : Str → Error) (world : HttpWorld W)
    (c : HttpConfig) (limit : ℕ) (limited : c.max_response_bytes ≡ pos limit) (positive : 0 < limit)
    (small : limit < max_int) where
  -- The answer to a request: a 2xx status, and a body that arrived as a whole, is within the limit and
  -- says ok.
  pub record Accepted (d : Decoded Response) : Type 0 where
    pub response : Response
    pub content : Str
    pub answer : HttpSendResponse
    pub arrived : d ≡ decoded response
    pub at_least_200 : pos 200 ≤ℤ response.status_code
    pub below_300 : response.status_code <ℤ pos 300
    pub whole : response.body.content ≡ content
    pub ended : response.body.ends_in ≡ nil
    pub fits : length content ≤ limit
    pub parsed_answer : world.unmarshal content ≡ decoded answer
    pub says_ok : answer.ok ≡ true

  -- The message was put into a request, which went to the configured origin and was accepted.
  pub record Delivered (ctx : Context) (msg : Message) (w : W) : Type 0 where
    pub body : Str
    pub request : Request
    pub valid : Message.validate msg ≡ nil
    pub marshalled :
        world.marshal (
          request_body net new_request world c msg
            (idempotency_key net new_request world c msg w).0)
        ≡ decoded body
    pub requested :
        new_send_request net new_request c body (idempotency_key net new_request world c msg w).0
        ≡ built request
    pub in_origin : Targets net c request
    pub accepted :
        Accepted (world.do_request ctx request (idempotency_key net new_request world c msg w).1).0

  fail-ne :
      (e : ProviderError) (w : W) (o : Option SendResult)
      → (fail net new_request world c e w).0 ≢ returned (o, nil)
  unfolding fail
  fail-ne e w o h = cc h

  successful_ok :
      (d : Decoded HttpSendResponse) (w : W) (o : Option SendResult)
      → (successful net new_request world c d w).0 ≡ returned (o, nil)
      → (a : HttpSendResponse) × (d ≡ decoded a) × (a.ok ≡ true)
  unfolding successful
  successful_ok (invalid err) w o h = absurd (fail-ne _ w o h)
  successful_ok (decoded r) w o h = elim (Bool-cases r.ok) [
    | inl ok ↦ (r, refl, ok)
    | inr failed ↦ absurd (fail-ne _ w o (rw failed at h))
  ]

  read_reply_ok :
      (status : ℤ) (b : Built Str) (w : W) (o : Option SendResult)
      → (read_reply net new_request world c status b w).0 ≡ returned (o, nil)
      → (content : Str) × (b ≡ built content)
        × (is_success_status status ≡ true)
        × ((a : HttpSendResponse) × (world.unmarshal content ≡ decoded a) × (a.ok ≡ true))
  unfolding read_reply
  read_reply_ok status (refused e) w o h = absurd (fail-ne e w o h)
  read_reply_ok status (built content) w o h = elim (Bool-cases (is_success_status status)) [
    | inl yes_2xx ↦
        (content, refl, yes_2xx, successful_ok (world.unmarshal content) w o (rw yes_2xx at h))
    | inr other ↦ absurd (fail-ne _ w o (rw other at h))
  ]

  responded-Accepted :
      (d : Decoded Response) (w : W) (o : Option SendResult)
      → (responded net new_request world c d w).0 ≡ returned (o, nil)
      → Accepted d
  unfolding responded
  responded-Accepted (invalid err) w o h = absurd (fail-ne _ w o h)
  responded-Accepted (decoded r) w o h =
      let ok = read_reply_ok r.status_code (read_send_response c r.body) w o h in
      let (whole, ended, fits) =
        read_accepted c limit r.body (ground (arith, limited)) small ok.0 ok.1 in
      record {
        response = r;
        content = ok.0;
        answer = ok.3.0;
        arrived = refl;
        at_least_200 = ground (arith, ok.2);
        below_300 = ground (arith, ok.2);
        whole = whole;
        ended = ended;
        fits = fits;
        parsed_answer = ok.3.1;
        says_ok = ok.3.2;
      }

  execute_ok :
      (ctx : Context) (b : Built Request) (w : W) (o : Option SendResult)
      → (execute net new_request world c ctx b w).0 ≡ returned (o, nil)
      → (req : Request) × (b ≡ built req) × Accepted (world.do_request ctx req w).0
  unfolding execute
  execute_ok ctx (refused e) w o h = absurd (fail-ne e w o h)
  execute_ok ctx (built req) w o h = (
    req,
    refl,
    responded-Accepted (world.do_request ctx req w).0 (world.do_request ctx req w).1 o h,
  )

  serialized_ok :
      (ctx : Context) (key : Str) (d : Decoded Str) (w : W) (o : Option SendResult)
      → (serialized net new_request world c ctx key d w).0 ≡ returned (o, nil)
      → (body : Str) × (d ≡ decoded body)
        × ((req : Request) × (new_send_request net new_request c body key ≡ built req)
            × Accepted (world.do_request ctx req w).0)
  unfolding serialized
  serialized_ok ctx key (invalid err) w o h = absurd (fail-ne _ w o h)
  serialized_ok ctx key (decoded body) w o h =
      (body, refl, execute_ok ctx (new_send_request net new_request c body key) w o h)

  validated-Delivered :
      (err : Error) (ctx : Context) (msg : Message) (w : W) (o : Option SendResult)
      → Message.validate msg ≡ err
      → (validated net new_request world c err ctx msg w).0 ≡ returned (o, nil)
      → Delivered ctx msg w
  unfolding validated
  validated-Delivered nil ctx msg w o e h =
      let key = idempotency_key net new_request world c msg w in
      let ok =
        serialized_ok ctx key.0 (world.marshal (request_body net new_request world c msg key.0))
          key.1 o h in
      record {
        body = ok.0;
        request = ok.2.0;
        valid = e;
        marshalled = ok.1;
        requested = ok.2.1;
        in_origin = new_send_request-Targets net c new_request ok.0 key.0 ok.2.0 ok.2.1;
        accepted = ok.2.2;
      }
  validated-Delivered err ctx msg w o e h =
      absurd (normalize_error-ne_nil err c.channel_type c.provider_name (λ q. cc q) (cc h))

  -- If Send of a message returns a nil error, for a MaxResponseBytes from 1 to 2 ^ 63 - 2, the message
  -- is valid, one request for it was built, to what the endpoint resolves to, which has the scheme and
  -- host of the base URL, and it was answered with a status from 200 to 299 and a body that ended
  -- without an error, has at most MaxResponseBytes bytes and says ok.
  pub send-Delivered :
      (ctx : Context) (msg : Message) (w : W) (o : Option SendResult)
      → (send net new_request world c ctx (some msg) w).0 ≡ returned (o, nil)
      → Delivered ctx msg w
  unfolding send
  send-Delivered ctx msg w o h = validated-Delivered (Message.validate msg) ctx msg w o refl h
