-- ===== src/Retry/Equivalence.antt =====
-- retry.go: the loop of RetrySender is the loop of RetryProvider around the provider that the
-- sender is on one channel.
use provider_kit.Base.{ℕ, zero, suc, ◌≡◌, refl, Option, []}
use provider_kit.Channel.{Channel}
use provider_kit.Errors.{nil}
use provider_kit.Message.{Message}
use provider_kit.Provider.{Context, Reply, Provider, Sender, Runtime}
use provider_kit.Retry.{
  Float64, RetryConfig, provider_loop, sender_loop, send_provider, send_sender,
}

-- A sender on one channel, seen as a provider.
abbrev pub on_channel : {W : Type 0} → Sender W → Channel → Provider W
on_channel s channel = record {
  send = λ ctx msg. s.send ctx channel msg;
  channel = channel;
  name = [];
  validate = nil;
}

module _ {F W : Type 0} (float : Float64 F) (rt : Runtime W) (c : RetryConfig F) (ctx : Context)
    (s : Sender W) (channel : Channel) (msg : Option Message) where
  sender_loop-eq :
      (left attempt : ℕ) (last : Reply)
      → sender_loop float rt c ctx s channel msg left attempt last
        ≡ provider_loop float rt c ctx (on_channel s channel) msg left attempt last
  unfolding sender_loop provider_loop
  sender_loop-eq zero attempt last = refl
  sender_loop-eq (suc left) attempt last = simp (sender_loop-eq left (suc attempt))

  -- Retrying a sender on a channel does to the world, and answers, what retrying the provider does
  -- that sends on that channel.
  pub send_sender-send_provider :
      send_sender float rt c ctx s channel msg
      ≡ send_provider float rt c ctx (on_channel s channel) msg
  unfolding send_sender send_provider
  send_sender-send_provider = sender_loop-eq _ _ _
