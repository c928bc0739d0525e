-- ===== src/Composition/Retried.antt =====
-- retry.go around idempotency.go: a provider that WrapWithIdempotency wraps over the store in memory,
-- wrapped again by NewRetryProvider.
use provider_kit.Base.{
  ℕ, zero, suc, Str, true, false, none, some, [], ◌≡◌, ◌≢◌, refl, pos, ◌+ℤ◌, ◌<ℤ◌,
}
use provider_kit.GoMap.{get}
use provider_kit.Errors.{Error, nil}
use provider_kit.SendResult.{SendResult, Time}
use provider_kit.Message.{Message}
use provider_kit.Provider.{Context, Duration, Reply, Provider, Runtime}
use provider_kit.Provider.Actions.{returned}
use provider_kit.Idempotency.{default_ttl, wrap_with_idempotency}
use provider_kit.Idempotency.Store.{MemoryStore, live, clone_send_result}
use provider_kit.Idempotency.Store.Recorded.{Draws}
use provider_kit.Idempotency.Memory.{runtime_beside, provider_beside, memory_store}
use provider_kit.Idempotency.Deduplication.{send_memory, key_of, recorded, send_deduplicated}
use provider_kit.Retry.{
  Float64, RetryConfig, retry, judge, calculate_delay, pause, attempts, config_or_default,
  new_retry_provider,
}
use provider_kit.Retry.Rounds.{Retries}
use provider_kit.Retry.Outcomes.{send_provider_exhausted}

module _ {F V : Type 0} (float : Float64 F) (rt : Runtime V) (c : RetryConfig F) (p : Provider V)
    (ttl : Duration) where
  abbrev pub idempotent : Provider (MemoryStore × V)
  idempotent =
      wrap_with_idempotency (runtime_beside rt) (memory_store rt) (provider_beside p)
        (some (memory_store rt)) ttl

  abbrev pub retried : Provider (MemoryStore × V)
  retried = new_retry_provider float (runtime_beside rt) idempotent (some c)

  idempotent-send_memory :
      (ctx : Context) (msg : Message)
      → idempotent.send ctx (some msg) ≡ send_memory rt p (default_ttl ttl) ctx msg
  unfolding wrap_with_idempotency
  idempotent-send_memory ctx msg = refl

  -- `n` waits of the retry loop, from attempt `k + 1` on, that the timer ends, each followed by a draw
  -- of a token and a look at the clock before the instant `until`.
  abbrev pub Waits : Context → Time → ℕ → ℕ → V → V → Type 0
  Waits ctx until zero k u u' = u ≡ u'
  Waits ctx until (suc n) k u u' =
      (u₁ : V) × (u₂ : V) × (u₃ : V) × (drawn : Str × Error) × (token : Str) × (t : Time)
      × (rt.elapses ctx (calculate_delay float c (pos k)) u ≡ (true, u₁))
      × (rt.rand_read u₁ ≡ (drawn, u₂))
      × Draws drawn token
      × (rt.now u₂ ≡ (t, u₃))
      × (t <ℤ until)
      × Waits ctx until n (suc k) u₃ u'

  -- What the later attempts get: a copy of the recorded result, with no error.
  abbrev pub repeated : SendResult → Reply
  repeated r = (clone_send_result (clone_send_result (some r)), nil)

  judge-repeated : (r : SendResult) → r.ok ≡ false → judge c (repeated r) ≡ retry
  unfolding judge clone_send_result
  judge-repeated r failed = rw failed

  pause-fires :
      (ctx : Context) (k : ℕ) (s : MemoryStore) (u u₁ : V)
      → rt.elapses ctx (calculate_delay float c (pos k)) u ≡ (true, u₁)
      → pause float (runtime_beside rt) c ctx (suc k) (s, u) ≡ (returned true, (s, u₁))
  unfolding pause
  pause-fires ctx k s u u₁ h = rw h

  Waits-Retries :
      (ctx : Context) (msg : Message) (until : Time) (r : SendResult) (s : MemoryStore) (n k : ℕ)
      (u u' : V) (last : Reply)
      → r.ok ≡ false
      → ((u u₁ u₂ : V) (drawn : Str × Error) (token : Str) (t : Time)
          → rt.rand_read u ≡ (drawn, u₁)
          → Draws drawn token
          → rt.now u₁ ≡ (t, u₂)
          → t <ℤ until
          → idempotent.send ctx (some msg) (s, u) ≡ (returned (repeated r), (s, u₂)))
      → Waits ctx until (suc n) k u u'
      → Retries float
          (runtime_beside rt)
          c
          ctx
          idempotent
          (some msg)
          (suc n)
          (suc k)
          (s, u)
          last
          (s, u')
          (repeated r)
  Waits-Retries ctx msg until r s zero k u u' last failed answers
        (u₁, u₂, u₃, drawn, token, t, waited, drew, draws, read, early, same) =
      (
        (s, u₁),
        (s, u₃),
        repeated r,
        pause-fires ctx k s u u₁ waited,
        answers u₁ u₂ u₃ drawn token t drew draws read early,
        judge-repeated r failed,
        (rw same, refl),
      )
  Waits-Retries ctx msg until r s (suc n) k u u' last failed answers
        (u₁, u₂, u₃, drawn, token, t, waited, drew, draws, read, early, rest) =
      (
        (s, u₁),
        (s, u₃),
        repeated r,
        pause-fires ctx k s u u₁ waited,
        answers u₁ u₂ u₃ drawn token t drew draws read early,
        judge-repeated r failed,
        Waits-Retries ctx msg until r s n (suc k) u₃ u' (repeated r) failed answers rest,
      )

  -- Retrying around idempotency. The first attempt of a send on a free key reaches the provider, which
  -- gives a result that is not OK, and a reply that the configuration retries. If the waits of all the
  -- other attempts, of which there is one at least, end before the TTL does that Finalize starts, none
  -- of them reaches the provider: after the first attempt the world changes by waits, draws and looks
  -- at the clock alone. Send then returns a copy of the failed result with a nil error.
  pub retried-idempotent :
      (ctx : Context) (msg : Message) (s : MemoryStore) (v v₁ v₂ v₃ v₄ v₅ v₆ : V)
      (drawn : Str × Error) (token : Str) (now t₁ t₂ : Time) (r : SendResult) (err : Error) (n : ℕ)
      (keyed : msg.idempotency_key ≢ []) (drew : rt.rand_read v ≡ (drawn, v₁))
      (draws : Draws drawn token) (has_token : token ≢ []) (read : rt.now v₁ ≡ (now, v₂))
      (free : live now (get (key_of rt p (default_ttl ttl) msg) s.entries) ≡ none)
      (sent : p.send ctx (some msg) v₂ ≡ (returned (some r, err), v₃))
      (read₁ : rt.now v₃ ≡ (t₁, v₄)) (read₂ : rt.now v₄ ≡ (t₂, v₅)) (failed : r.ok ≡ false)
      (judged : judge c (some r, err) ≡ retry) (allowed : attempts c ≡ suc (suc n))
      (waits : Waits ctx (t₂ +ℤ default_ttl ttl) (suc n) 0 v₅ v₆)
      → retried.send ctx (some msg) (s, v) ≡ (
        returned (repeated r),
        (
          recorded rt p
              (default_ttl ttl)
              drawn
              now
              (key_of rt p (default_ttl ttl) msg)
              token
              t₂
              r
              s,
          v₆,
        ),
      )
  unfolding new_retry_provider pause config_or_default
  retried-idempotent ctx msg s v v₁ v₂ v₃ v₄ v₅ v₆ drawn token now t₁ t₂ r err n keyed drew draws
        has_token read free sent read₁ read₂ failed judged allowed waits =
      let is_memory = idempotent-send_memory ctx msg in
      let (first, later) =
        send_deduplicated rt p (default_ttl ttl) ctx msg s v v₁ v₂ v₃ v₄ v₅ drawn token now t₁ t₂ r
          err keyed drew draws has_token read free sent read₁ read₂ in
      let after =
        recorded rt p (default_ttl ttl) drawn now (key_of rt p (default_ttl ttl) msg) token t₂ r
          s in
      let again =
        Waits-Retries ctx msg (t₂ +ℤ default_ttl ttl) r after n 0 v₅ v₆ (some r, err) failed
          (λ u u₁ u₂ drawn' token' t drew' draws' read' early.
            rw is_memory (later ctx msg u u₁ u₂ drawn' token' t refl drew' draws' read' early))
          waits in
      send_provider_exhausted float (runtime_beside rt) c ctx idempotent (some msg) (s, v)
        (after, v₆) (repeated r)
        (rw allowed ((s, v), (after, v₅), (some r, err), refl, rw is_memory first, judged, again))
