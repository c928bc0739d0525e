-- ===== src/Registry/Sends.antt =====
-- registry.go: Send finds the provider of the channel, or answers ErrNotRegistered.
use provider_kit.Base.{==_refl, Option, none, some, List, ◌≡◌, refl, ◌∙◌}
use provider_kit.GoMap
use provider_kit.GoMap.{get-put}
use provider_kit.Channel.{Channel}
use provider_kit.Errors.{Error, nil, to_error, err_not_registered}
use provider_kit.Message.{Message}
use provider_kit.Provider.{Context, Reply, Provider}
use provider_kit.Provider.Actions.{Action, pure}
use provider_kit.Registry.{Registry, register_validated, register, get, send_with, send}
use provider_kit.Registry.Invariant.{Call}
use provider_kit.Registry.History.{replay, latest, get-replay}

-- The provider's own Send, or the error that no provider is registered, with the world untouched.
abbrev pub send_latest :
    {W : Type 0} → Option (Provider W) → Context → Channel → Option Message → Action W Reply
send_latest none ctx channel msg = pure (none, to_error (err_not_registered channel))
send_latest (some p) ctx channel msg = p.send ctx msg

send-get :
    {W : Type 0} (r : Registry W) (ctx : Context) (channel : Channel) (msg : Option Message)
    → send r ctx channel msg ≡ send_latest (GoMap.get channel r.providers) ctx channel msg
unfolding send get send_with
send-get {W} r ctx channel msg = by_lookup (GoMap.get channel r.providers)
  where
    by_lookup :
        (o : Option (Provider W))
        → send_with
            (elim o [
              | none ↦ (none, to_error (err_not_registered channel))
              | some p ↦ (some p, nil)
            ])
            ctx
            msg
          ≡ send_latest o ctx channel msg
    by_lookup none = refl
    by_lookup (some p) = refl

-- After any history of calls, Send on a channel is the Send of the provider that was registered last
-- for it, and without such a provider it answers ErrNotRegistered and leaves the world as it is.
pub send-replay :
    {W : Type 0} (calls : List (Call W)) (ctx : Context) (channel : Channel) (msg : Option Message)
    → send (replay calls) ctx channel msg ≡ send_latest (latest channel calls) ctx channel msg
send-replay calls ctx channel msg =
    send-get (replay calls) ctx channel msg ∙ rw (get-replay channel calls)

module _ {W : Type 0} where
  -- A provider is accepted, and a message on its channel goes to it.
  pub record Serves (p : Provider W) (r : Registry W) : Type 0 where
    pub accepted : (register (some p) r).0 ≡ nil
    pub sends :
        (ctx : Context) (msg : Option Message)
        → send (register (some p) r).1 ctx p.channel msg ≡ p.send ctx msg

  get-registered :
      (p : Provider W) (r : Registry W) (v : Error)
      → v ≡ nil
      → GoMap.get p.channel (register_validated v p r).1.providers ≡ some p
  unfolding register_validated
  get-registered p r v h = rw h (get-put p.channel p.channel p r.providers ∙ rw (==_refl p.channel))

  register_validated_nil :
      (p : Provider W) (r : Registry W) (v : Error) → v ≡ nil → (register_validated v p r).0 ≡ nil
  unfolding register_validated
  register_validated_nil p r v h = rw h

  pub valid-Serves : (p : Provider W) (r : Registry W) → p.validate ≡ nil → Serves p r
  unfolding register
  valid-Serves p r valid = record {
    accepted = register_validated_nil p r p.validate valid;
    sends = λ ctx msg.
        send-get (register (some p) r).1 ctx p.channel msg
        ∙ rw (get-registered p r p.validate valid);
  }
