-- ===== src/Registry/History.antt =====
-- registry.go: the registry against its history of calls.
use provider_kit.Base.{
  Str, ◌==◌, Option, none, some, List, [], ◌∷◌, ◌≡◌, refl, arith, if◌then◌else◌,
}
use provider_kit.GoMap
use provider_kit.GoMap.{GoMap, put, delete, get-put, get-delete}
use provider_kit.Channel.{Channel}
use provider_kit.Errors.{Error, nil}
use provider_kit.Provider.{Provider}
use provider_kit.Registry.{
  ProviderFactory, Registry, new_registry, register_validated, register, register_factory,
  unregister, unregister_factory, clear,
}
use provider_kit.Registry.Invariant.{
  Call, registers, registers_factory, unregisters, unregisters_factory, clears, run,
}

module _ {W : Type 0} where
  -- The calls of a history, the latest first.
  unfoldable pub replay : List (Call W) → Registry W
  unfolding new_registry
  replay [] = new_registry
  replay (call ∷ earlier) = run call (replay earlier)

  unfoldable pub registered :
      Error → Provider W → Channel → Option (Provider W) → Option (Provider W)
  registered nil p ch before = if p.channel == ch then some p else before
  registered err p ch before = before

  -- The provider that a channel should have: that of the latest Register for the channel whose
  -- provider passed its validation, unless Unregister or Clear came after it.
  unfoldable pub latest : Channel → List (Call W) → Option (Provider W)
  latest ch [] = none
  latest ch (registers none ∷ earlier) = latest ch earlier
  latest ch (registers (some p) ∷ earlier) = registered p.validate p ch (latest ch earlier)
  latest ch (registers_factory name f ∷ earlier) = latest ch earlier
  latest ch (unregisters c ∷ earlier) =
      let before = latest ch earlier in if c == ch then none else before
  latest ch (unregisters_factory name ∷ earlier) = latest ch earlier
  latest ch (clears ∷ earlier) = none

  get-register_validated :
      (v : Error) (p : Provider W) (r : Registry W) (ch : Channel)
      → GoMap.get ch (register_validated v p r).1.providers
        ≡ registered v p ch (GoMap.get ch r.providers)
  unfolding register_validated registered
  get-register_validated nil p r ch = get-put ch p.channel p r.providers
  get-register_validated err p r ch = refl

  providers-register_factory :
      (name : Str) (f : Option (ProviderFactory W)) (r : Registry W)
      → (register_factory name f r).1.providers ≡ r.providers
  unfolding register_factory
  providers-register_factory name none r = ground arith
  providers-register_factory name (some f) r = ground arith

  -- After any history of calls a channel has the provider of the latest successful Register for it,
  -- if no Unregister of the channel and no Clear came later, and none otherwise.
  pub get-replay :
      (ch : Channel) (calls : List (Call W))
      → GoMap.get ch (replay calls).providers ≡ latest ch calls
  unfolding replay run latest register unregister unregister_factory clear GoMap.get
  get-replay ch [] = refl
  get-replay ch (registers none ∷ earlier) = get-replay ch earlier
  get-replay ch (registers (some p) ∷ earlier) =
      rw (get-register_validated p.validate p (replay earlier) ch, get-replay ch earlier)
  get-replay ch (registers_factory name f ∷ earlier) =
      rw (providers-register_factory name f (replay earlier)) (get-replay ch earlier)
  get-replay ch (unregisters c ∷ earlier) =
      ground (arith, get-delete ch c (replay earlier).providers, get-replay ch earlier)
  get-replay ch (unregisters_factory name ∷ earlier) = get-replay ch earlier
  get-replay ch (clears ∷ earlier) = refl
