-- ===== src/Http/Limits.antt =====
-- http.go: how much of a response is read.
use provider_kit.Base.{
  ℕ, zero, suc, leb, ltb, subst, ap, ◌∙◌, Bool-cases, inl, inr, if◌then◌else◌, ◌≤◌, ◌<◌, Str, bytes,
  [], ◌∷◌, ◌≡◌, arith, pos, inc_int, max_int,
}
use provider_kit.Errors.{Error, nil}
use provider_kit.Message.Mask.{length, take}
use provider_kit.Http.Config.{HttpConfig}
use provider_kit.Http.Exchange.{
  Body, built, refused, failed, read_limited, effective_limit, read_limit, within,
  read_send_response,
}

length-take : (n : ℕ) (s : Str) → n ≤ length s → length (take n s) ≡ n
length-take zero s h = omega arith
length-take (suc n) [] h = absurd (omega arith)
length-take (suc n) (c ∷ s) h = omega (arith, length-take n s (omega arith))

inc_int-small : (n : ℕ) → n < max_int → inc_int (pos n) ≡ pos (suc n)
unfolding inc_int
inc_int-small n h = ground arith

within-built :
    (c : HttpConfig) (limit : ℕ) (text : Str) (err : Error) (content : Str)
    → within c (pos limit) (text, err) ≡ built content
    → (text ≡ content) × (err ≡ nil) × (length text ≤ limit)
unfolding within
within-built c limit text nil content h = ground arith
within-built c limit text err content h = absurd (cc h)

module _ (c : HttpConfig) (limit : ℕ) (body : Body) (bounded : effective_limit c ≡ pos limit)
    (small : limit < max_int) where
  read_limit-suc : read_limit (effective_limit c) ≡ pos (suc limit)
  read_limit-suc = rw bounded (ground (arith, inc_int-small limit small))

  -- A response of at most `limit` bytes that ends without an error is read whole.
  read_fitting :
      length body.content ≤ limit
      → body.ends_in ≡ nil
      → read_send_response c body ≡ built body.content
  unfolding read_send_response read_limited within
  read_fitting fits whole = ground (arith, read_limit-suc, inc_int-small limit small)

  -- A longer response is refused.
  read_oversized :
      limit < length body.content
      → read_send_response c body
        ≡ refused (failed c (bytes "provider response exceeds size limit") nil)
  unfolding read_send_response read_limited within
  read_oversized long =
      ground
        (arith, read_limit-suc, inc_int-small limit small, length-take (suc limit) body.content)

  -- A response that ends without an error is read whole if it has at most `limit` bytes, and is
  -- refused if it is longer; `limit` is the limit in force, below 2 ^ 63 - 1.
  pub read_send_response_lem :
      body.ends_in ≡ nil
      → read_send_response c body ≡ (
          if leb (length body.content) limit
          then built body.content
          else refused (failed c (bytes "provider response exceeds size limit") nil))
  read_send_response_lem whole = elim (Bool-cases (leb (length body.content) limit)) [
    | inl fits ↦ rw fits (read_fitting (ground (arith, fits)) whole)
    | inr long ↦ rw long (read_oversized (ground (arith, long)))
  ]

  read_send_response-within :
      read_send_response c body ≡ within c (pos limit) (read_limited (pos (suc limit)) body)
  unfolding read_send_response
  read_send_response-within =
      let raised : read_limit (pos limit) ≡ pos (suc limit) =
        ground (arith, inc_int-small limit small) in
      ap (λ l. within c l (read_limited (read_limit l) body)) bounded
      ∙ ap (λ l. within c (pos limit) (read_limited l body)) raised

  -- What is accepted is the whole response, which ended without an error and is within the limit.
  pub read_accepted :
      (content : Str)
      → read_send_response c body ≡ built content
      → (body.content ≡ content) × (body.ends_in ≡ nil) × (length content ≤ limit)
  unfolding read_limited
  read_accepted content h = elim (Bool-cases (ltb (length body.content) (suc limit))) [
    | inl short ↦
        let (same, ended, fits) =
          within-built c limit body.content body.ends_in content
            (rw (read_send_response-within, short) at h) in
        (same, ended, subst (λ (x : Str). length x ≤ limit) same fits)
    | inr long ↦
        let (same, ended, fits) =
          within-built c limit (take (suc limit) body.content) nil content
            (rw (read_send_response-within, long) at h) in
        absurd (omega (arith, fits, length-take (suc limit) body.content (ground (arith, long))))
  ]
