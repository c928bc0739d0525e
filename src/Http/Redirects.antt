-- ===== src/Http/Redirects.antt =====
-- http.go: redirects and origins. Credentials stay with the origin that they were configured for.
use provider_kit.Base.{
  Str, bytes, ==_iff, ==_refl, true, none, List, [], ◌∷◌, ◌≡◌, ◌≢◌, refl, arith, inl, inr, ◌⊎◌,
  Bool-cases,
}
use provider_kit.GoMap.{GoMap, get, delete, get-delete}
use provider_kit.Errors.{Error, nil}
use provider_kit.Http.Config.{
  NetLib, Parsed, parsed, malformed, HttpConfig, redirect_deny, strip, del_header, check_redirect,
}
use provider_kit.Http.Exchange.{
  Request, built, same_origin, create_request, resolve, new_send_request,
}

module _ {U : Type 0} (net : NetLib U) (c : HttpConfig) where
  open net use {parse, scheme, host, resolve_reference, to_string, equal_fold, canonical_key}

  abbrev pub HasNo : Str → GoMap Str → Type 0
  HasNo key headers = get (canonical_key key) headers ≡ none

  strip-HasNo :
      (headers : GoMap Str)
      → HasNo (bytes "Authorization") (strip net c headers)
        × ((c.api_key_header ≡ []) ⊎ HasNo c.api_key_header (strip net c headers))
  unfolding strip del_header
  strip-HasNo headers = (
    ground (
      arith,
      ==_refl (canonical_key (bytes "Authorization")),
      get-delete (canonical_key (bytes "Authorization")) (canonical_key (bytes "Authorization"))
          headers,
      get-delete (canonical_key (bytes "Authorization")) (canonical_key c.api_key_header)
          (delete (canonical_key (bytes "Authorization")) headers),
    ),
    ground (
      arith,
      ==_iff c.api_key_header [],
      ==_refl (canonical_key c.api_key_header),
      get-delete (canonical_key c.api_key_header) (canonical_key c.api_key_header)
          (delete (canonical_key (bytes "Authorization")) headers),
    ),
  )

  -- A redirect is followed only if the policy is not deny and the new URL has the scheme and the
  -- host of the first request, up to case; the redirected request then has no Authorization header
  -- and, if the config names an API key header, not that header either.
  pub check_redirect_safe :
      (url orig : U) (via : List U) (headers headers' : GoMap Str)
      → check_redirect net c url headers (orig ∷ via) ≡ (nil, headers')
      → (c.redirect ≢ redirect_deny)
        × (equal_fold (scheme url) (scheme orig) ≡ true)
        × (equal_fold (host url) (host orig) ≡ true)
        × HasNo (bytes "Authorization") headers'
        × ((c.api_key_header ≡ []) ⊎ HasNo c.api_key_header headers')
  unfolding check_redirect
  check_redirect_safe url orig via headers headers' h = (
    ground (arith, ==_iff c.redirect redirect_deny),
    ground arith,
    ground arith,
    ground (arith, strip-HasNo headers),
    ground (arith, strip-HasNo headers),
  )

  create_request-built :
      (new_request : Str → Error) (url body key : Str) (req : Request)
      → create_request net new_request c url body key ≡ built req
      → req.url ≡ url
  unfolding create_request
  create_request-built new_request url body key req h = ground arith

  -- Where a request may go: to what the endpoint resolves to against the base URL, and only if that
  -- has the base URL's scheme and host.
  pub record Targets (req : Request) : Type 0 where
    pub base : U
    pub ref : U
    pub base_parsed : parse c.base_url ≡ parsed base
    pub ref_parsed : parse c.send_endpoint ≡ parsed ref
    pub same_scheme : equal_fold (scheme (resolve_reference base ref)) (scheme base) ≡ true
    pub same_host : equal_fold (host (resolve_reference base ref)) (host base) ≡ true
    pub resolved : req.url ≡ to_string (resolve_reference base ref)

  resolve-Targets :
      (new_request : Str → Error) (base ref : U) (body key : Str) (req : Request)
      → parse c.base_url ≡ parsed base
      → parse c.send_endpoint ≡ parsed ref
      → resolve net new_request c base ref body key ≡ built req
      → Targets req
  unfolding resolve
  resolve-Targets new_request base ref body key req base_parsed ref_parsed h =
      elim (Bool-cases (same_origin net (resolve_reference base ref) base)) [
        | inl same ↦ record {
          base = base;
          ref = ref;
          base_parsed = base_parsed;
          ref_parsed = ref_parsed;
          same_scheme = ground arith;
          same_host = ground arith;
          resolved =
              create_request-built new_request (to_string (resolve_reference base ref)) body key req
                (rw same at h);
        }
        | inr other ↦ absurd (ground arith)
      ]

  new_send_request_by :
      (new_request : Str → Error) (b r : Parsed U) (body key : Str) (req : Request)
      → parse c.base_url ≡ b
      → parse c.send_endpoint ≡ r
      → new_send_request net new_request c body key ≡ built req
      → Targets req
  unfolding new_send_request
  new_send_request_by new_request (malformed t) r body key req e f h = absurd (ground arith)
  new_send_request_by new_request (parsed base) (malformed t) body key req e f h =
      absurd (ground arith)
  new_send_request_by new_request (parsed base) (parsed ref) body key req e f h =
      resolve-Targets new_request base ref body key req e f (ground arith)

  -- Every request that is built goes to what the endpoint resolves to against the base URL, which
  -- has the scheme and the host of the base URL, up to case: no endpoint, absolute or not, sends the
  -- message and the API key to another origin.
  pub new_send_request-Targets :
      (new_request : Str → Error) (body key : Str) (req : Request)
      → new_send_request net new_request c body key ≡ built req
      → Targets req
  new_send_request-Targets new_request body key req h =
      new_send_request_by new_request (parse c.base_url) (parse c.send_endpoint) body key req refl
        refl h
