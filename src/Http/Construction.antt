-- ===== src/Http/Construction.antt =====
-- http.go: what NewHTTPProvider guarantees of the provider that it returns.
use provider_kit.Base.{
  Str, bytes, ◌==◌, ==_iff, ==_refl, true, false, Option, some, [], ◌≡◌, ◌≢◌, refl, arith, ◌⊎◌, pos,
  ltb_ℤ,
}
use provider_kit.GoMap.{GoMap}
use provider_kit.Errors.{Error, nil}
use provider_kit.SendResult.{copy_map}
use provider_kit.Http.Config.{
  NetLib, Parsed, parsed, malformed, HttpConfig, HttpProvider, redirect_deny, redirect_same_origin,
  validate, validate_url, with_defaults, finish, build_provider, config_or_default,
  new_http_provider, http_config_from_map, new_http_provider_from_map,
}

module _ {U : Type 0} (net : NetLib U) where
  open net use {parse, scheme, host}

  -- A URL with a host, and with the scheme http or https, https if the configuration asks for it.
  abbrev pub IsServer : HttpConfig → U → Type 0
  IsServer c u =
      (host u ≢ [])
      × ((scheme u ≡ bytes "https") ⊎ ((scheme u ≡ bytes "http") × (c.require_https ≡ false)))

  abbrev HasPolicy : HttpConfig → Type 0
  HasPolicy c = (c.redirect ≡ redirect_deny) ⊎ (c.redirect ≡ redirect_same_origin)

  -- A base URL that is a server, a known redirect policy, and limits that are positive.
  pub record IsBuilt (p : HttpProvider) : Type 0 where
    pub valid : validate net p.config ≡ nil
    pub url : U
    pub url_parsed : parse p.config.base_url ≡ parsed url
    pub server : IsServer p.config url
    pub policy : HasPolicy p.config
    pub limited : ltb_ℤ (pos 0) p.config.max_response_bytes ≡ true
    pub timed : ltb_ℤ (pos 0) p.client_timeout ≡ true
    pub keyed : p.config.api_key_header ≢ []

  validate_url-IsServer : (c : HttpConfig) (u : U) → validate_url net c u ≡ nil → IsServer c u
  unfolding validate_url
  validate_url-IsServer c u h = ground (
    arith,
    ==_iff (host u) [],
    ==_iff (scheme u) (bytes "http"),
    ==_iff (scheme u) (bytes "https"),
  )

  validate_url-HasPolicy :
      (c : HttpConfig) (u : U) → validate_url net c u ≡ nil → HasPolicy (with_defaults c)
  unfolding validate_url with_defaults
  validate_url-HasPolicy c u h = ground (
    arith,
    ==_iff c.redirect [],
    ==_iff c.redirect redirect_deny,
    ==_iff c.redirect redirect_same_origin,
  )

  validate-parsed :
      (c : HttpConfig) (b : Parsed U)
      → parse c.base_url ≡ b
      → validate net c ≡ nil
      → (u : U) × (b ≡ parsed u) × (validate_url net c u ≡ nil) × ((c.base_url == []) ≡ false)
  unfolding validate
  validate-parsed c (malformed text) e h = absurd (ground arith)
  validate-parsed c (parsed u) e h = (u, refl, ground arith, ground arith)

  finish_nil :
      (err : Error) (p q : HttpProvider) → finish err p ≡ (some q, nil) → (err ≡ nil) × (p ≡ q)
  finish_nil nil p q h = (refl, cc h)
  finish_nil err p q h = absurd (cc h)

  default_key_header-ne_nil : bytes "X-API-Key" ≢ []
  unfolding bytes
  default_key_header-ne_nil h = cc h

  with_defaults-valid :
      (c : HttpConfig) (u : U)
      → validate_url net c u ≡ nil
      → validate_url net (with_defaults c) u ≡ nil
  unfolding validate_url with_defaults
  with_defaults-valid c u h = ground (arith, ==_refl redirect_deny, ==_iff c.redirect [])

  with_defaults-validate :
      (c : HttpConfig) (u : U)
      → (c.base_url == []) ≡ false
      → parse c.base_url ≡ parsed u
      → validate_url net c u ≡ nil
      → validate net (with_defaults c) ≡ nil
  unfolding validate
  with_defaults-validate c u present e h =
      unfold with_defaults in rw (present, e) (with_defaults-valid c u h)

  build_provider-IsBuilt :
      (c : HttpConfig) (u : U)
      → (c.base_url == []) ≡ false
      → parse c.base_url ≡ parsed u
      → validate_url net c u ≡ nil
      → IsBuilt (build_provider c)
  unfolding build_provider with_defaults
  build_provider-IsBuilt c u present e h = record {
    valid = with_defaults-validate c u present e h;
    url = u;
    url_parsed = e;
    server = validate_url-IsServer c u h;
    policy = validate_url-HasPolicy c u h;
    limited = ground arith;
    timed = ground arith;
    keyed = ground (arith, ==_iff c.api_key_header [], default_key_header-ne_nil);
  }

  -- A provider that NewHTTPProvider returns without an error, also for a nil configuration, has a base
  -- URL with a host and the scheme http or https, https if RequireHTTPS is set; its redirect policy is
  -- deny or same-origin; its response limit and its timeout are positive, so that no zero value turns
  -- them off; its API key header has a name; and its own configuration is valid.
  pub new_http_provider-IsBuilt :
      (config : Option HttpConfig) (p : HttpProvider)
      → new_http_provider net config ≡ (some p, nil)
      → IsBuilt p
  unfolding new_http_provider
  new_http_provider-IsBuilt config p h =
      let c = config_or_default config in
      let copy : HttpConfig = record c { headers = copy_map c.headers } in
      let valid = finish_nil (validate net copy) (build_provider copy) p h in
      let found = validate-parsed copy (parse copy.base_url) refl valid.0 in
      rw (← valid.1) (build_provider-IsBuilt copy found.0 found.3 found.1 found.2)

  -- The same of NewHTTPProviderFromMap.
  pub new_http_provider_from_map-IsBuilt :
      (m : GoMap Str) (p : HttpProvider)
      → new_http_provider_from_map net m ≡ (some p, nil)
      → IsBuilt p
  unfolding new_http_provider_from_map
  new_http_provider_from_map-IsBuilt m p h =
      new_http_provider-IsBuilt (some (http_config_from_map m)) p h
