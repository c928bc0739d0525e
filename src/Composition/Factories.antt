-- ===== src/Composition/Factories.antt =====
-- registry.go with http.go and smtp.go: a provider that a factory makes, registered and used.
use provider_kit.Base.{
  Str, ◌==◌, ==_iff, ==_refl, Bool-cases, Option, none, some, [], ◌≡◌, ◌≢◌, refl, inl, inr,
}
use provider_kit.GoMap
use provider_kit.GoMap.{GoMap, put, get-put}
use provider_kit.Channel.{channel_email}
use provider_kit.Errors.{Error, nil}
use provider_kit.Provider.{Provider}
use provider_kit.Provider.Actions.{returned}
use provider_kit.Registry.{ProviderFactory, made, Registry, register_factory, create_provider}
use provider_kit.Http.{HttpWorld, http_provider, http_provider_factory}
use provider_kit.Http.Config as HttpConfig
use provider_kit.Http.Config.{NetLib, HttpProvider, new_http_provider_from_map, new_http_provider}
use provider_kit.Registry.Sends.{Serves, valid-Serves}
use provider_kit.Http.Construction.{new_http_provider_from_map-IsBuilt}
use provider_kit.Smtp.{smtp_provider, smtp_provider_factory}
use provider_kit.Smtp.Config as SmtpConfig
use provider_kit.Smtp.Config.{MailLib, SmtpProvider, new_smtp_provider_from_map, new_smtp_provider}
use provider_kit.Smtp.Connection.{Network}
use provider_kit.Smtp.Construction.{new_smtp_provider_from_map-IsReady}

made-some :
    {P Q : Type 0} (f : P → Q) (found : Option P) (err : Error) (q : Q)
    → made f (found, err) ≡ (some q, nil)
    → (p : P) × (found ≡ some p) × (err ≡ nil) × (f p ≡ q)
made-some f none err q h = absurd (cc h)
made-some f (some p) err q h = (p, refl, cc h, cc h)

module _ {W : Type 0} where
  -- A registry in which the factory `f` was registered under a name.
  abbrev pub with_factory : Str → ProviderFactory W → Registry W → Registry W
  with_factory name f r = (register_factory name (some f) r).1

  create_provider-found :
      (name : Str) (f : ProviderFactory W) (r : Registry W) (settings : GoMap Str)
      → GoMap.get name r.factories ≡ some f
      → create_provider name settings r ≡ f settings
  unfolding create_provider
  create_provider-found name f r settings h = rw (create_provider, h)

  register_factory-found :
      (name : Str) (f : ProviderFactory W) (r : Registry W)
      → name ≢ []
      → GoMap.get name (with_factory name f r).factories ≡ some f
  unfolding register_factory
  register_factory-found name f r present = elim (Bool-cases (name == [])) [
    | inl empty ↦ absurd (present ((==_iff name []).0 empty))
    | inr named ↦
        rw (with_factory, register_factory, named, get-put name name f r.factories, ==_refl name)
  ]

  created :
      (name : Str) (f : ProviderFactory W) (r : Registry W) (settings : GoMap Str)
      → name ≢ []
      → create_provider name settings (with_factory name f r) ≡ f settings
  created name f r settings present =
      create_provider-found name f (with_factory name f r) settings
        (register_factory-found name f r present)

module _ {C W : Type 0} (net : Network C W) (lib : MailLib) where
  made_smtp-valid :
      (found : Option (SmtpProvider (Unit {0})) × Error) (p : Provider W)
      → ((sp : SmtpProvider (Unit {0}))
          → found ≡ (some sp, nil)
          → SmtpConfig.validate lib sp.config ≡ nil)
      → made (λ (sp : SmtpProvider (Unit {0})). smtp_provider net lib sp) found ≡ (some p, nil)
      → (p.validate ≡ nil) × (p.channel ≡ channel_email)
  unfolding smtp_provider
  made_smtp-valid (found, err) p valid h =
      let (sp, is, no_error, same) =
        made-some (λ (sp : SmtpProvider (Unit {0})). smtp_provider net lib sp) found err p h in
      (rw (← same) (valid sp (cc (is, no_error))), rw (← same))

  -- Once the SMTP factory is registered under a name, a provider that CreateProvider makes from it
  -- without an error, whatever the settings are, is accepted by Register, and from then on a message on
  -- the channel email goes to it.
  pub smtp_provider_factory-Serves :
      (name : Str) (settings : GoMap Str) (r : Registry W) (p : Provider W) (w w' : W)
      → name ≢ []
      → create_provider name settings (with_factory name (smtp_provider_factory net lib) r) w
        ≡ (returned (some p, nil), w')
      → (p.channel ≡ channel_email) × Serves p (with_factory name (smtp_provider_factory net lib) r)
  unfolding smtp_provider_factory
  smtp_provider_factory-Serves name settings r p w w' present h =
      let run = rw (created name (smtp_provider_factory net lib) r settings present) at h in
      let (valid, channel) =
        made_smtp-valid (new_smtp_provider_from_map lib settings) p
          (λ sp built. (new_smtp_provider_from_map-IsReady lib settings sp built).1) (cc run) in
      (channel, valid-Serves p _ valid)

module _ {U W : Type 0} (net : NetLib U) (new_request : Str → Error) (world : HttpWorld W) where
  made_http-valid :
      (found : Option HttpProvider × Error) (p : Provider W)
      → ((hp : HttpProvider) → found ≡ (some hp, nil) → HttpConfig.validate net hp.config ≡ nil)
      → made (λ (hp : HttpProvider). http_provider net new_request world hp.config) found
        ≡ (some p, nil)
      → p.validate ≡ nil
  unfolding http_provider
  made_http-valid (found, err) p valid h =
      let (hp, is, no_error, same) =
        made-some (λ (hp : HttpProvider). http_provider net new_request world hp.config) found err p
          h in
      rw (← same) (valid hp (cc (is, no_error)))

  -- The same of the HTTP factory, on the channel that the provider has.
  pub http_provider_factory-Serves :
      (name : Str) (settings : GoMap Str) (r : Registry W) (p : Provider W) (w w' : W)
      → name ≢ []
      → create_provider name settings
          (with_factory name (http_provider_factory net new_request world) r)
          w
        ≡ (returned (some p, nil), w')
      → Serves p (with_factory name (http_provider_factory net new_request world) r)
  unfolding http_provider_factory
  http_provider_factory-Serves name settings r p w w' present h =
      let run =
        rw (created name (http_provider_factory net new_request world) r settings present) at h in
      valid-Serves p _ (
        made_http-valid (new_http_provider_from_map net settings) p
          (λ hp built. (new_http_provider_from_map-IsBuilt net settings hp built).valid) (cc run))
