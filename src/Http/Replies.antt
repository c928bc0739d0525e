-- ===== src/Http/Replies.antt =====
-- http.go: what HTTPProvider.Send returns.
use provider_kit.Base.{Str, true, some, ◌≡◌, refl, arith, inl, inr, Bool-cases, ℤ}
use provider_kit.Errors.{Error, nil, ProviderError}
use provider_kit.Errors.Chain.{normalize_error-ne_nil}
use provider_kit.SendResult.{Time, new_success_result, new_failure_result, with_metadata}
use provider_kit.Message
use provider_kit.Message.{Message}
use provider_kit.Provider.{Context, IsConsistent}
use provider_kit.Http.Config.{NetLib, HttpConfig}
use provider_kit.Http.Exchange.{
  Request, Built, built, refused, new_send_request, read_send_response,
}
use provider_kit.Http.{
  HttpSendResponse, Response, Decoded, decoded, invalid, HttpWorld, is_success_status, fail,
  success_result, successful, read_reply, responded, execute, serialized, idempotency_key,
  validated, send,
}

module _ {U W : Type 0} (net : NetLib U) (new_request : Str → Error) (world : HttpWorld W)
    (c : HttpConfig) where
  fail-IsConsistent :
      (e : ProviderError) (w : W) → IsConsistent (fail net new_request world c e w).0
  unfolding fail new_failure_result
  fail-IsConsistent e w = inr (refl, λ h. cc h)

  success_result-ok :
      (now : Time) (r : HttpSendResponse) → (success_result net new_request world c now r).ok ≡ true
  unfolding success_result new_success_result with_metadata
  success_result-ok now r = ground arith

  successful-IsConsistent :
      (d : Decoded HttpSendResponse) (w : W)
      → IsConsistent (successful net new_request world c d w).0
  unfolding successful
  successful-IsConsistent (invalid err) w = fail-IsConsistent _ w
  successful-IsConsistent (decoded r) w = elim (Bool-cases r.ok) [
    | inl ok ↦ rw ok (inl (success_result-ok _ r, refl))
    | inr failed ↦ rw failed (fail-IsConsistent _ w)
  ]

  read_reply-IsConsistent :
      (status : ℤ) (b : Built Str) (w : W)
      → IsConsistent (read_reply net new_request world c status b w).0
  unfolding read_reply
  read_reply-IsConsistent status (refused e) w = fail-IsConsistent e w
  read_reply-IsConsistent status (built content) w = elim (Bool-cases (is_success_status status)) [
    | inl yes_2xx ↦ rw yes_2xx (successful-IsConsistent (world.unmarshal content) w)
    | inr other ↦ rw other (fail-IsConsistent _ w)
  ]

  responded-IsConsistent :
      (d : Decoded Response) (w : W) → IsConsistent (responded net new_request world c d w).0
  unfolding responded
  responded-IsConsistent (invalid err) w = fail-IsConsistent _ w
  responded-IsConsistent (decoded r) w =
      read_reply-IsConsistent r.status_code (read_send_response c r.body) w

  execute-IsConsistent :
      (ctx : Context) (b : Built Request) (w : W)
      → IsConsistent (execute net new_request world c ctx b w).0
  unfolding execute
  execute-IsConsistent ctx (refused e) w = fail-IsConsistent e w
  execute-IsConsistent ctx (built req) w =
      responded-IsConsistent (world.do_request ctx req w).0 (world.do_request ctx req w).1

  serialized-IsConsistent :
      (ctx : Context) (key : Str) (d : Decoded Str) (w : W)
      → IsConsistent (serialized net new_request world c ctx key d w).0
  unfolding serialized
  serialized-IsConsistent ctx key (invalid err) w = fail-IsConsistent _ w
  serialized-IsConsistent ctx key (decoded body) w =
      execute-IsConsistent ctx (new_send_request net new_request c body key) w

  validated-IsConsistent :
      (err : Error) (ctx : Context) (msg : Message) (w : W)
      → IsConsistent (validated net new_request world c err ctx msg w).0
  unfolding validated new_failure_result
  validated-IsConsistent nil ctx msg w =
      serialized-IsConsistent ctx (idempotency_key net new_request world c msg w).0 _
        (idempotency_key net new_request world c msg w).1
  validated-IsConsistent err ctx msg w =
      inr (refl, normalize_error-ne_nil err c.channel_type c.provider_name (λ h. cc h))

  -- Whatever the network and the server do, Send of a message returns a result, never nil, and the
  -- result is OK exactly if the error is nil.
  pub send-IsConsistent :
      (ctx : Context) (msg : Message) (w : W)
      → IsConsistent (send net new_request world c ctx (some msg) w).0
  unfolding send
  send-IsConsistent ctx msg w = validated-IsConsistent (Message.validate msg) ctx msg w
