-- ===== src/Registry.antt =====
-- registry.go: the registry of providers and factories. Every method holds the registry's lock, so it
-- is one function on the state; the global registry is such a state too.
pub mod Invariant
pub mod History
pub mod Sends
use provider_kit.Base.{
  Str, bytes, ◌==◌, Bool, true, false, Option, none, some, List, [], ◌∷◌, ◌++◌, if◌then◌else◌,
}
use provider_kit.GoMap
use provider_kit.GoMap.{GoMap, RangeOrder, put, delete}
use provider_kit.Channel.{Channel}
use provider_kit.Errors.{Error, nil, wrapped, to_error, err_validation_failed, err_not_registered}
use provider_kit.Message.{Message}
use provider_kit.Provider.{Context, Reply, Provider, Sender}
use provider_kit.Provider.Actions.{Action, Outcome, returned, panicked, pure}

-- interface.go: a factory reads a configuration and gives a provider, which may be nil, and an error.
abbrev pub ProviderFactory : Type 0 → Type 0
ProviderFactory W = GoMap Str → Action W (Option (Provider W) × Error)

-- What a factory makes of the result of a constructor: the Provider that its methods are.
abbrev pub made : {P Q : Type 0} → (P → Q) → Option P × Error → Option Q × Error
made f (none, err) = (none, err)
made f (some p, err) = (some (f p), err)

pub record Registry (W : Type 0) : Type 0 where
  pub providers : GoMap (Provider W)
  pub factories : GoMap (ProviderFactory W)

abbrev pub is_present {ℓ} : {A : Type ℓ} → Option A → Bool
is_present none = false
is_present (some a) = true

module _ {W : Type 0} where
  unfoldable pub new_registry : Registry W
  new_registry = record { providers = []; factories = [] }

  -- What follows the call of `provider.Validate()`.
  register_validated : Error → Provider W → Registry W → Error × Registry W
  register_validated nil p r = (nil, record r { providers = put p.channel p r.providers })
  register_validated err p r = (wrapped (bytes "provider validation failed") err, r)

  -- A nil provider is `none`.
  unfoldable pub register : Option (Provider W) → Registry W → Error × Registry W
  unfolding register_validated
  register none r = (to_error (err_validation_failed (bytes "provider cannot be nil")), r)
  register (some p) r = register_validated p.validate p r

  -- A nil factory is `none`.
  unfoldable pub register_factory :
      Str → Option (ProviderFactory W) → Registry W → Error × Registry W
  register_factory name factory r =
      if name == []
      then (to_error (err_validation_failed (bytes "factory name cannot be empty")), r)
      else elim factory [
        | none ↦ (to_error (err_validation_failed (bytes "factory cannot be nil")), r)
        | some f ↦ (nil, record r { factories = put name f r.factories })
      ]

  unfoldable pub create_provider :
      Str → GoMap Str → Registry W → Action W (Option (Provider W) × Error)
  create_provider name config r = elim (GoMap.get name r.factories) [
    | none ↦ pure (
      none,
      to_error (err_validation_failed (bytes "no factory registered for provider: " ++ name)),
    )
    | some factory ↦ factory config
  ]

  unfoldable pub get : Channel → Registry W → Option (Provider W) × Error
  get channel r = elim (GoMap.get channel r.providers) [
    | none ↦ (none, to_error (err_not_registered channel))
    | some p ↦ (some p, nil)
  ]

  unfoldable pub get_provider : Channel → Registry W → Option (Provider W) × Error
  unfolding get
  get_provider channel r = get channel r

  -- What follows the call of `r.Get(channel)`.
  send_with : Option (Provider W) × Error → Context → Option Message → Action W Reply
  send_with (some p, nil) ctx msg = p.send ctx msg
  send_with (found, err) ctx msg = pure (none, err)

  unfoldable pub send : Registry W → Context → Channel → Option Message → Action W Reply
  unfolding get send_with
  send r ctx channel msg = send_with (get channel r) ctx msg

  unfoldable pub unregister : Channel → Registry W → Registry W
  unregister channel r = record r { providers = delete channel r.providers }

  unfoldable pub unregister_factory : Str → Registry W → Registry W
  unregister_factory name r = record r { factories = delete name r.factories }

  unfoldable pub has : Channel → Registry W → Bool
  has channel r = is_present (GoMap.get channel r.providers)

  unfoldable pub has_factory : Str → Registry W → Bool
  has_factory name r = is_present (GoMap.get name r.factories)

  range_keys : GoMap (Provider W) → List Channel
  range_keys [] = []
  range_keys ((ch, p) ∷ m) = ch ∷ range_keys m

  range_values : GoMap (Provider W) → List (Provider W)
  range_values [] = []
  range_values ((ch, p) ∷ m) = p ∷ range_values m

  -- In the order that the `range` loop of this call chooses.
  unfoldable pub channels : RangeOrder (Provider W) → Registry W → List Channel
  unfolding range_keys
  channels order r = range_keys (order r.providers)

  unfoldable pub providers_of : RangeOrder (Provider W) → Registry W → List (Provider W)
  unfolding range_values
  providers_of order r = range_values (order r.providers)

  unfoldable pub clear : Registry W → Registry W
  clear r = record { providers = []; factories = [] }

  -- The registry as a Sender.
  abbrev pub registry_sender : Registry W → Sender W
  registry_sender r = record { send = send r }

  -- GlobalRegistry, as the program starts
  unfoldable pub global_registry : Registry W
  unfolding new_registry
  global_registry = new_registry

  -- The functions on the global registry, whose state is their argument.
  unfoldable pub register_global : Option (Provider W) → Registry W → Error × Registry W
  unfolding register
  register_global p global = register p global

  unfoldable pub get_global : Channel → Registry W → Option (Provider W) × Error
  unfolding get
  get_global channel global = get channel global

  unfoldable pub send_global : Registry W → Context → Channel → Option Message → Action W Reply
  unfolding send
  send_global global ctx channel msg = send global ctx channel msg
