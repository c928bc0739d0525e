-- ===== src/Registry/Invariant.antt =====
-- registry.go: what every registry that the methods build satisfies.
use provider_kit.Base.{
  ℕ, ◌+◌, Str, ◌==◌, ==_iff, Option, none, some, List, [], ◌∷◌, ◌≡◌, refl, ap, ◌∙◌, arith, map,
  if◌then◌else◌,
}
use mathlib.Core.List.{Permᴰ}
use provider_kit.GoMap
use provider_kit.GoMap.{GoMap, RangeOrder, IsRange, put, delete, get-put, get-delete}
use provider_kit.GoMap.Unique.{Unique, put-Unique, delete-Unique}
use provider_kit.Channel.{Channel}
use provider_kit.Errors.{Error, nil}
use provider_kit.Provider.{Provider}
use provider_kit.Registry.{
  ProviderFactory, Registry, is_present, new_registry, register_validated, register,
  register_factory, unregister, unregister_factory, has, range_keys, range_values, channels,
  providers_of, clear,
}

-- The calls that change a registry.
pub data Call (W : Type 0) : Type 0 where
  registers : Option (Provider W) → Call W
  registers_factory : Str → Option (ProviderFactory W) → Call W
  unregisters : Channel → Call W
  unregisters_factory : Str → Call W
  clears : Call W

-- How often a channel is listed.
abbrev pub count : Channel → List Channel → ℕ
count ch [] = 0
count ch (c ∷ cs) = (if c == ch then 1 else 0) + count ch cs

module _ {W : Type 0} where
  unfoldable pub run : Call W → Registry W → Registry W
  run (registers p) r = (register p r).1
  run (registers_factory name f) r = (register_factory name f r).1
  run (unregisters channel) r = unregister channel r
  run (unregisters_factory name) r = unregister_factory name r
  run clears r = clear r

  -- Under each channel stands a provider of that channel that passed its validation.
  abbrev pub AreSound : GoMap (Provider W) → Type 0
  AreSound [] = Unit
  AreSound ((ch, p) ∷ m) = (p.channel ≡ ch) × (p.validate ≡ nil) × AreSound m

  pub record IsSound (r : Registry W) : Type 0 where
    pub unique : Unique r.providers
    pub unique_names : Unique r.factories
    pub sound : AreSound r.providers

  put-AreSound :
      (p : Provider W) (m : GoMap (Provider W))
      → p.validate ≡ nil
      → AreSound m
      → AreSound (put p.channel p m)
  unfolding put
  put-AreSound p [] valid s = (refl, valid, tt)
  put-AreSound p ((ch, q) ∷ m) valid s = ground (arith, put-AreSound p m valid s.2)

  delete-AreSound : (ch : Channel) (m : GoMap (Provider W)) → AreSound m → AreSound (delete ch m)
  unfolding delete
  delete-AreSound ch [] s = tt
  delete-AreSound ch ((k, q) ∷ m) s = ground (arith, delete-AreSound ch m s.2)

  register_validated-IsSound :
      (v : Error) (p : Provider W) (r : Registry W)
      → p.validate ≡ v
      → IsSound r
      → IsSound (register_validated v p r).1
  unfolding register_validated
  register_validated-IsSound nil p r valid s = record {
    unique = put-Unique p.channel p r.providers s.unique;
    unique_names = s.unique_names;
    sound = put-AreSound p r.providers valid s.sound;
  }
  register_validated-IsSound err p r valid s = s

  register_factory-IsSound :
      (name : Str) (f : Option (ProviderFactory W)) (r : Registry W)
      → IsSound r
      → IsSound (register_factory name f r).1
  unfolding register_factory
  register_factory-IsSound name none r s = ground arith
  register_factory-IsSound name (some f) r s =
      ground (arith, put-Unique name f r.factories s.unique_names)

  -- Every call keeps the registry sound: one provider for a channel, under its own channel, and
  -- validated; one factory for a name.
  pub run-IsSound : (call : Call W) (r : Registry W) → IsSound r → IsSound (run call r)
  unfolding run register unregister unregister_factory clear
  run-IsSound (registers none) r s = s
  run-IsSound (registers (some p)) r s = register_validated-IsSound p.validate p r refl s
  run-IsSound (registers_factory name f) r s = register_factory-IsSound name f r s
  run-IsSound (unregisters channel) r s = record {
    unique = delete-Unique channel r.providers s.unique;
    unique_names = s.unique_names;
    sound = delete-AreSound channel r.providers s.sound;
  }
  run-IsSound (unregisters_factory name) r s = record {
    unique = s.unique;
    unique_names = delete-Unique name r.factories s.unique_names;
    sound = s.sound;
  }
  run-IsSound clears r s = record { unique = tt; unique_names = tt; sound = tt }

  pub new_registry-IsSound : IsSound (new_registry {W = W})
  unfolding new_registry
  new_registry-IsSound = record { unique = tt; unique_names = tt; sound = tt }

  count-range_keys :
      (ch : Channel) (m : GoMap (Provider W))
      → Unique m
      → count ch (range_keys m) ≡ (if is_present (GoMap.get ch m) then 1 else 0)
  unfolding range_keys GoMap.get
  count-range_keys ch [] u = refl
  count-range_keys ch ((k, p) ∷ m) u = ground (arith, count-range_keys ch m u.1, ==_iff k ch)

  map-range_values :
      (m : GoMap (Provider W))
      → AreSound m
      → map (λ (p : Provider W). p.channel) (range_values m) ≡ range_keys m
  unfolding range_values range_keys
  map-range_values [] s = refl
  map-range_values ((k, p) ∷ m) s = ground (arith, map-range_values m s.2)

  count-Permᴰ :
      (ch : Channel) {m m' : GoMap (Provider W)}
      → Permᴰ m m'
      → count ch (range_keys m) ≡ count ch (range_keys m')
  unfolding range_keys
  count-Permᴰ ch Permᴰ.nil = refl
  count-Permᴰ ch (Permᴰ.cons e d) = rw (e, count-Permᴰ ch d)
  count-Permᴰ ch (Permᴰ.swap e f) = rw (e, f) (omega arith)
  count-Permᴰ ch (Permᴰ.trans d e) = count-Permᴰ ch d ∙ count-Permᴰ ch e

  AreSound-Permᴰ : {m m' : GoMap (Provider W)} → Permᴰ m m' → AreSound m' → AreSound m
  AreSound-Permᴰ Permᴰ.nil s = s
  AreSound-Permᴰ (Permᴰ.cons e d) s = rw e (s.0, s.1, AreSound-Permᴰ d s.2)
  AreSound-Permᴰ (Permᴰ.swap e f) s = rw (e, f) (s.2.0, s.2.1, (s.0, s.1, s.2.2))
  AreSound-Permᴰ (Permᴰ.trans d e) s = AreSound-Permᴰ d (AreSound-Permᴰ e s)

  -- In a sound registry Channels lists a channel exactly once if Has says that it is registered, and
  -- not at all otherwise, and so do the channels of the providers that Providers lists; each of the two
  -- lists has the order of a range loop of its own.
  pub channels_lem :
      (f g : RangeOrder (Provider W)) (ch : Channel) (r : Registry W)
      → IsRange f
      → IsRange g
      → IsSound r
      → (count ch (channels f r) ≡ (if has ch r then 1 else 0))
        × (count ch (map (λ (p : Provider W). p.channel) (providers_of g r))
            ≡ (if has ch r then 1 else 0))
  unfolding channels providers_of has
  channels_lem f g ch r f_range g_range s =
      let listed = count-range_keys ch r.providers s.unique in
      (
        count-Permᴰ ch (f_range r.providers) ∙ listed,
        ap (count ch)
              (map-range_values (g r.providers) (AreSound-Permᴰ (g_range r.providers) s.sound))
            ∙ (count-Permᴰ ch (g_range r.providers) ∙ listed),
      )
