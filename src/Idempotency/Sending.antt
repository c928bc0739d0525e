-- ===== src/Idempotency/Sending.antt =====
-- idempotency.go: when Send calls the provider, and what a later Send answers.
use provider_kit.Base.{
  Str, ◌==◌, ==_iff, false, Option, none, some, [], ◌∷◌, ◌≡◌, ◌≢◌, refl, ap, arith,
}
use provider_kit.Errors.{Error, nil}
use provider_kit.SendResult.{SendResult}
use provider_kit.Message.{Message}
use provider_kit.Provider.{Context, Duration, Reply, Provider, Runtime}
use provider_kit.Provider.Actions.{Action, returned, ◌>>=◌}
use provider_kit.Idempotency.Store.{err_send_in_flight}
use provider_kit.Idempotency.{
  Reserver, IdempotencyStore, build_cache_key, settle, claimed, send_reserved, send_keyed, send,
}

-- What Send answers without calling the provider: the error of the store, a recorded result, or
-- ErrSendInFlight.
abbrev pub refusal : Option SendResult × Error → Reply
refusal (some existing, nil) = (some existing, nil)
refusal (none, nil) = (none, err_send_in_flight)
refusal (existing, err) = (none, err)

pub ne-nil→false : (k : Str) → k ≢ [] → (k == []) ≡ false
ne-nil→false k h = ground (arith, ==_iff k [])

module _ {W : Type 0} (rt : Runtime W) (p : Provider W) (store : IdempotencyStore W)
    (ttl : Duration) (ctx : Context) (msg : Message) where
  claimed-refused :
      (r : Reserver W) (key : Str) (existing : Option SendResult) (err : Error) (w : W)
      → claimed rt p store ttl r ctx key msg ([], existing, err) w
        ≡ (returned (refusal (existing, err)), w)
  unfolding claimed
  claimed-refused r key (some existing) nil w = refl
  claimed-refused r key none nil w = refl
  claimed-refused r key existing err w = refl

  claimed_granted :
      (r : Reserver W) (key token : Str) (existing : Option SendResult)
      → token ≢ []
      → claimed rt p store ttl r ctx key msg (token, existing, nil)
        ≡ (p.send ctx (some msg) >>= settle rt p store ttl r ctx key token)
  unfolding claimed
  claimed_granted r key [] existing h = absurd (h refl)
  claimed_granted r key (b ∷ t) existing h = refl

  pub send_reserved_granted :
      (r : Reserver W) (key token : Str) (w w' : W)
      → token ≢ []
      → r.reserve ctx key ttl w ≡ ((token, none, nil), w')
      → send_reserved rt p store ttl r ctx key msg w
        ≡ (p.send ctx (some msg) >>= settle rt p store ttl r ctx key token) w'
  unfolding send_reserved
  send_reserved_granted r key token w w' has_token granted =
      rw granted (ap (λ (f : Action W Reply). f w') (claimed_granted r key token none has_token))

  -- A message with a key goes through Reserve.
  pub send-send_reserved :
      (r : Reserver W)
      → store.reserver ≡ some r
      → msg.idempotency_key ≢ []
      → send rt p store ttl ctx (some msg)
        ≡ send_reserved rt p store ttl r ctx (build_cache_key p msg.idempotency_key) msg
  unfolding send send_keyed
  send-send_reserved r can keyed = rw (ne-nil→false msg.idempotency_key keyed, can)

  -- With a store that can reserve, a message with an idempotency key reaches the provider only if
  -- Reserve hands out a token: if Reserve gives none, the world is as Reserve left it, and Send
  -- answers with the error of Reserve, with the recorded result, or with ErrSendInFlight.
  pub send_refused :
      (r : Reserver W) (w w' : W) (existing : Option SendResult) (err : Error)
      → store.reserver ≡ some r
      → msg.idempotency_key ≢ []
      → r.reserve ctx (build_cache_key p msg.idempotency_key) ttl w ≡ (([], existing, err), w')
      → send rt p store ttl ctx (some msg) w ≡ (returned (refusal (existing, err)), w')
  unfolding send_reserved
  send_refused r w w' existing err can keyed refused =
      rw (send-send_reserved r can keyed, refused)
        (claimed-refused r (build_cache_key p msg.idempotency_key) existing err w')
