-- ===== src/Idempotency.antt =====
-- idempotency.go: IdempotentProvider, over a store that may or may not implement Reserver.
pub mod Token
pub mod Store
pub mod Memory
pub mod Sending
pub mod Deduplication
pub mod Unreserved
pub mod Sharing
pub mod Senders
pub mod Keys
use provider_kit.Base.{
  Str, bytes, ◌==◌, Bool, true, false, Option, none, some, [], ◌++◌, pos, ◌+ℤ◌, ltb_ℤ, ℤ, nat_eq,
  pos_part, neg_part, ◌+◌, if◌then◌else◌,
}
use provider_kit.Errors.{Error, nil}
use provider_kit.SendResult.{SendResult, Time}
use provider_kit.Message.{Message}
use provider_kit.Provider.{Context, Duration, Reply, Provider, Runtime}
use provider_kit.Provider.Actions.{
  Action, Outcome, returned, panicked, pure, panic, total, continue, ◌>>=◌, ◌>>◌,
}
use Store.{clone_send_result, err_send_in_flight}

pub record Reserver (W : Type 0) : Type 0 where
  -- A token, the existing result, an error.
  pub reserve : Context → Str → Duration → W → (Str × Option SendResult × Error) × W
  pub abandon : Context → Str → Str → W → Error × W
  pub finalize : Context → Str → Str → Option SendResult → Duration → W → Error × W

-- `reserver` is what the type assertion `store.(Reserver)` gives.
pub record IdempotencyStore (W : Type 0) : Type 0 where
  pub get : Context → Str → W → (Option SendResult × Bool × Error) × W
  pub set : Context → Str → Option SendResult → Duration → W → Error × W
  pub delete : Context → Str → W → Error × W
  pub reserver : Option (Reserver W)

pub record IdempotencyConfig (W : Type 0) : Type 0 where
  pub store : Option (IdempotencyStore W)
  pub ttl : Duration

abbrev pub five_minutes : Duration
five_minutes = pos 300_000_000_000

abbrev pub cleanup_timeout : Duration
cleanup_timeout = pos 5_000_000_000

-- cleanupContext at an instant: detached from the cancellation and the deadline of `ctx`.
unfoldable pub cleanup_context : Context → Time → Context
cleanup_context ctx now = record { canceled_at = none; deadline = some (now +ℤ cleanup_timeout) }

unfoldable pub build_cache_key : {W : Type 0} → Provider W → Str → Str
build_cache_key p key = bytes "idem:" ++ p.channel ++ bytes ":" ++ key

-- The error of a store call is discarded: `_ = …`.
abbrev discard : {W : Type 0} → (W → Error × W) → Action W (Unit {0})
discard f w = let (err, w') = f w in (returned tt, w')

module _ {W : Type 0} (rt : Runtime W) (p : Provider W) (store : IdempotencyStore W)
    (ttl : Duration) where
  unfoldable pub cleanup : Context → Action W Context
  cleanup ctx = do now ← total rt.now; pure (cleanup_context ctx now)

  -- What happens to the claim once the provider has replied.
  unfoldable pub settle : Reserver W → Context → Str → Str → Reply → Action W Reply
  settle r ctx key token (none, nil) = do
    finalize_ctx ← cleanup ctx
    discard (r.finalize finalize_ctx key token (clone_send_result none) ttl)
    pure (none, nil)
  settle r ctx key token (some result, err) = do
    finalize_ctx ← cleanup ctx
    discard (r.finalize finalize_ctx key token (clone_send_result (some result)) ttl)
    pure (some result, err)
  settle r ctx key token (none, err) = do
    cleanup_ctx ← cleanup ctx
    discard (r.abandon cleanup_ctx key token)
    pure (none, err)

  -- What follows Reserve.
  unfoldable pub claimed :
      Reserver W → Context → Str → Message → Str × Option SendResult × Error → Action W Reply
  claimed r ctx key msg ([], some existing, nil) = pure (some existing, nil)
  claimed r ctx key msg ([], none, nil) = pure (none, err_send_in_flight)
  claimed r ctx key msg (token, existing, nil) = do
    reply ← p.send ctx (some msg)
    settle r ctx key token reply
  claimed r ctx key msg (token, existing, err) = pure (none, err)

  unfoldable pub send_reserved : Reserver W → Context → Str → Message → Action W Reply
  unfolding claimed
  send_reserved r ctx key msg = do
    claim ← total (r.reserve ctx key ttl)
    claimed r ctx key msg claim

  -- The end of sendUnreserved.
  unfoldable pub store_reply : Context → Str → Reply → Action W Reply
  store_reply ctx key (none, nil) = do
    discard (store.set ctx key (clone_send_result none) ttl)
    pure (none, nil)
  store_reply ctx key (some result, err) = do
    discard (store.set ctx key (clone_send_result (some result)) ttl)
    pure (some result, err)
  store_reply ctx key (none, err) = pure (none, err)

  -- What follows Get.
  unfoldable pub looked_up :
      Context → Str → Message → Option SendResult × Bool × Error → Action W Reply
  looked_up ctx key msg (result, true, nil) = pure (result, nil)
  looked_up ctx key msg (result, false, nil) = do
    reply ← p.send ctx (some msg)
    store_reply ctx key reply
  looked_up ctx key msg (result, found, err) = pure (none, err)

  unfoldable pub send_unreserved : Context → Str → Message → Action W Reply
  send_unreserved ctx key msg = do found ← total (store.get ctx key); looked_up ctx key msg found

  unfoldable pub send_keyed : Option (Reserver W) → Context → Str → Message → Action W Reply
  send_keyed none ctx key msg = send_unreserved ctx key msg
  send_keyed (some r) ctx key msg = send_reserved r ctx key msg

  -- (*IdempotentProvider).Send; `msg.IdempotencyKey` reads through the message.
  unfoldable pub send : Context → Option Message → Action W Reply
  unfolding send_keyed
  send ctx none = panic
  send ctx (some msg) =
      if msg.idempotency_key == []
      then p.send ctx (some msg)
      else send_keyed store.reserver ctx (build_cache_key p msg.idempotency_key) msg

-- `fresh` stands for a store that NewMemoryIdempotencyStore returns.
abbrev default_store :
    {W : Type 0} → IdempotencyStore W → Option (IdempotencyStore W) → IdempotencyStore W
default_store fresh none = fresh
default_store fresh (some store) = store

abbrev pub default_ttl : Duration → Duration
default_ttl ttl = if nat_eq (pos_part ttl + neg_part ttl) 0 then five_minutes else ttl

module _ {W : Type 0} (rt : Runtime W) (fresh : IdempotencyStore W) where
  unfoldable pub default_idempotency_config : IdempotencyConfig W
  default_idempotency_config = record { store = some fresh; ttl = five_minutes }

  -- IdempotentProvider, by its methods
  abbrev idempotent_provider : Provider W → IdempotencyStore W → Duration → Provider W
  idempotent_provider p store ttl = record {
    send = send rt p store ttl;
    channel = p.channel;
    name = p.name;
    validate = p.validate;
  }

  -- The configuration with its defaults filled in.
  abbrev completed_config : IdempotencyConfig W → IdempotencyConfig W
  completed_config config = record {
    store = some (default_store fresh config.store);
    ttl = default_ttl config.ttl;
  }

  -- The provider of a configuration, and what stands in that configuration afterwards.
  abbrev with_config : Provider W → IdempotencyConfig W → Provider W × IdempotencyConfig W
  with_config p config =
      let config = completed_config config in
      (idempotent_provider p (default_store fresh config.store) config.ttl, config)

  -- NewIdempotentProvider: the provider, with the methods of IdempotentProvider, and what the
  -- caller's configuration, if there is one, holds afterwards: the defaults are written into it.
  unfoldable pub new_idempotent_provider :
      Provider W → Option (IdempotencyConfig W) → Provider W × Option (IdempotencyConfig W)
  unfolding default_idempotency_config
  new_idempotent_provider p none = ((with_config p default_idempotency_config).0, none)
  new_idempotent_provider p (some config) =
      let (provider, written) = with_config p config in (provider, some written)

  unfoldable pub wrap_with_idempotency :
      Provider W → Option (IdempotencyStore W) → Duration → Provider W
  unfolding new_idempotent_provider
  wrap_with_idempotency p store ttl =
      (new_idempotent_provider p (some (record { store = store; ttl = ttl }))).0
