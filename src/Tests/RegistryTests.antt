-- ===== src/Tests/RegistryTests.antt =====
-- registry.go: a registry with one provider.
use provider_kit.Base.{bytes, ◌==◌, none, some, List, [], ◌∷◌, ◌≡◌, map}
use mathlib.Core.List.{reverse}
use mathlib.Core.List.Permᴰ
use provider_kit.GoMap
use provider_kit.GoMap.{RangeOrder}
use provider_kit.Channel.{channel_email, channel_sms}
use provider_kit.Errors.{to_error, err_not_registered}
use provider_kit.Provider.{Reply, Provider}
use provider_kit.Provider.Actions.{pure}
use provider_kit.Registry.{Registry, new_registry, register, has, channels, providers_of, send}
use provider_kit.Registry.Invariant.{
  Call, registers, unregisters, clears, run, count, IsSound, new_registry-IsSound, run-IsSound,
  channels_lem,
}
use provider_kit.Registry.History.{replay, latest, registered}
use provider_kit.Registry.Sends.{send-replay}
use provider_kit.Tests.Samples.{background, message, scripted}

-- The latest call stands first.
abbrev history : List (Call (List Reply))
history = unregisters channel_sms ∷ registers (some scripted) ∷ clears ∷ []

send-replay_example :
    send (replay history) background channel_email (some message)
    ≡ scripted.send background (some message)
unfolding latest registered bytes ◌==◌
send-replay_example = send-replay history background channel_email (some message)

send_unregistered :
    send (replay history) background channel_sms (some message)
    ≡ pure (none, to_error (err_not_registered channel_sms))
unfolding latest registered bytes ◌==◌
send_unregistered = send-replay history background channel_sms (some message)

run-IsSound_example : IsSound (run (registers (some scripted)) (new_registry {W = List Reply}))
run-IsSound_example = run-IsSound (registers (some scripted)) new_registry new_registry-IsSound

abbrev one : Registry (List Reply)
one = run (registers (some scripted)) new_registry

abbrev as_it_is : RangeOrder (Provider (List Reply))
as_it_is m = m

channels_lem_example :
    (count channel_email (channels reverse one) ≡ 1)
    × (count channel_email
          (map (λ (p : Provider (List Reply)). p.channel) (providers_of as_it_is one))
        ≡ 1)
unfolding new_registry run register has GoMap.get GoMap.put ◌==◌ bytes
channels_lem_example =
    channels_lem reverse as_it_is channel_email one (λ m. Permᴰ.reverse m) (λ m. Permᴰ.refl m)
      run-IsSound_example
