-- ===== src/Idempotency/Deduplication.antt =====
-- idempotency.go: sends over the store in memory, and what a later send of the same key answers.
use provider_kit.Base.{Str, none, some, [], ◌≡◌, ◌≢◌, refl, ◌+ℤ◌, ◌<ℤ◌, lt→ltb_ℤ}
use provider_kit.GoMap.{get}
use provider_kit.Errors.{Error, nil}
use provider_kit.SendResult.{SendResult, Time, copy_map}
use provider_kit.Message.{Message}
use provider_kit.Provider.{Context, Duration, Reply, Provider, Runtime}
use provider_kit.Provider.Actions.{Action, returned}
use provider_kit.Idempotency.Store.{
  Entry, MemoryStore, live, result_entry, reserve, clone_send_result,
}
use provider_kit.Idempotency.Store.Calls.{run, finalizes}
use provider_kit.Idempotency.Store.Recorded.{Draws, reserve_free, reserve_live, get-finalize}
use provider_kit.Idempotency.Senders.{settling}
use provider_kit.Idempotency.Memory.{runtime_beside, provider_beside, memory_reserver, memory_store}
use provider_kit.Idempotency.{build_cache_key, cleanup, settle, send}
use provider_kit.Idempotency.Sending.{
  refusal, send_refused, send_reserved_granted, send-send_reserved,
}

module _ {V : Type 0} (rt : Runtime V) (p : Provider V) (ttl : Duration) where
  abbrev pub send_memory : Context → Message → Action (MemoryStore × V) Reply
  send_memory ctx msg =
      send (runtime_beside rt) (provider_beside p) (memory_store rt) ttl ctx (some msg)

  abbrev pub key_of : Message → Str
  key_of msg = build_cache_key (provider_beside p) msg.idempotency_key

  -- The end of a claim over the store in memory is one call of the store, at the time that
  -- Finalize reads.
  settle-run :
      (ctx : Context) (key token : Str) (r : SendResult) (err : Error) (s : MemoryStore)
      (v v₁ v₂ : V) (t₁ t₂ : Time)
      → rt.now v ≡ (t₁, v₁)
      → rt.now v₁ ≡ (t₂, v₂)
      → settle
          (runtime_beside rt)
          (provider_beside p)
          (memory_store rt)
          ttl
          (memory_reserver rt)
          ctx
          key
          token
          (some r, err)
          (s, v)
        ≡ (returned (some r, err), (run (settling (some r, err) t₂ key token ttl) s, v₂))
  unfolding settle cleanup memory_reserver run settling
  settle-run ctx key token r err s v v₁ v₂ t₁ t₂ first second = rw (first, second)

  reserve_memory :
      (ctx : Context) (key : Str) (s : MemoryStore) (v v₁ v₂ : V) (drawn : Str × Error) (now : Time)
      → rt.rand_read v ≡ (drawn, v₁)
      → rt.now v₁ ≡ (now, v₂)
      → (memory_reserver rt).reserve ctx key ttl (s, v)
        ≡ ((reserve drawn now key ttl s).0, ((reserve drawn now key ttl s).1, v₂))
  unfolding memory_reserver
  reserve_memory ctx key s v v₁ v₂ drawn now drew read = rw (drew, read)

  can_reserve : (memory_store rt).reserver ≡ some (memory_reserver rt)
  unfolding memory_store
  can_reserve = refl

  -- The store after a send that was let through and gave a result.
  abbrev pub recorded :
      Str × Error → Time → Str → Str → Time → SendResult → MemoryStore → MemoryStore
  recorded drawn now key token t r s =
      run (finalizes t key token (clone_send_result (some r)) ttl) (reserve drawn now key ttl s).1

  -- A send on a free key whose provider gives a result, with an error or without, answers what the
  -- provider answered, and leaves the store with the result recorded.
  send_first :
      (ctx : Context) (msg : Message) (s : MemoryStore) (v v₁ v₂ v₃ v₄ v₅ : V) (drawn : Str × Error)
      (token : Str) (now t₁ t₂ : Time) (r : SendResult) (err : Error)
      → msg.idempotency_key ≢ []
      → rt.rand_read v ≡ (drawn, v₁)
      → Draws drawn token
      → token ≢ []
      → rt.now v₁ ≡ (now, v₂)
      → live now (get (key_of msg) s.entries) ≡ none
      → p.send ctx (some msg) v₂ ≡ (returned (some r, err), v₃)
      → rt.now v₃ ≡ (t₁, v₄)
      → rt.now v₄ ≡ (t₂, v₅)
      → send_memory ctx msg (s, v)
        ≡ (returned (some r, err), (recorded drawn now (key_of msg) token t₂ r s, v₅))
  unfolding settling
  send_first ctx msg s v v₁ v₂ v₃ v₄ v₅ drawn token now t₁ t₂ r err keyed drew draws has_token read
        free sent read₁ read₂ =
      rw
        (
          send-send_reserved (runtime_beside rt) (provider_beside p) (memory_store rt) ttl ctx msg
              (memory_reserver rt) can_reserve keyed,
          send_reserved_granted (runtime_beside rt) (provider_beside p) (memory_store rt) ttl ctx
              msg (memory_reserver rt) (key_of msg) token (s, v)
              ((reserve drawn now (key_of msg) ttl s).1, v₂) has_token granted,
        )
        (rw sent (
          settle-run ctx (key_of msg) token r err (reserve drawn now (key_of msg) ttl s).1 v₃ v₄ v₅
            t₁ t₂ read₁ read₂))
    where
      granted :
          (memory_reserver rt).reserve ctx (key_of msg) ttl (s, v)
          ≡ ((token, none, nil), ((reserve drawn now (key_of msg) ttl s).1, v₂))
      granted = rw (
        reserve_memory ctx (key_of msg) s v v₁ v₂ drawn now drew read,
        (reserve_free drawn token now (key_of msg) ttl s draws free).0,
      )

  -- While an entry of its key is alive, a send does not reach the provider: the world changes by a
  -- draw and a look at the clock, and the answer is a copy of the recorded result with a nil error,
  -- or ErrSendInFlight if the claim is still open.
  pub send_live :
      (ctx : Context) (msg : Message) (s : MemoryStore) (u u₁ u₂ : V) (drawn : Str × Error)
      (token : Str) (t : Time) (e : Entry)
      → msg.idempotency_key ≢ []
      → rt.rand_read u ≡ (drawn, u₁)
      → Draws drawn token
      → rt.now u₁ ≡ (t, u₂)
      → live t (get (key_of msg) s.entries) ≡ some e
      → send_memory ctx msg (s, u) ≡ (returned (refusal (clone_send_result e.result, nil)), (s, u₂))
  send_live ctx msg s u u₁ u₂ drawn token t e keyed drew draws read alive =
      send_refused (runtime_beside rt) (provider_beside p) (memory_store rt) ttl ctx msg
        (memory_reserver rt) (s, u) (s, u₂) (clone_send_result e.result) nil can_reserve keyed
        (rw (
          reserve_memory ctx (key_of msg) s u u₁ u₂ drawn t drew read,
          reserve_live drawn token t (key_of msg) ttl s e draws alive,
        ))

  live-recorded :
      (drawn : Str × Error) (now t₂ t : Time) (key token : Str) (r : SendResult) (s : MemoryStore)
      → Draws drawn token
      → token ≢ []
      → live now (get key s.entries) ≡ none
      → t <ℤ t₂ +ℤ ttl
      → (e : Entry) × (live t (get key (recorded drawn now key token t₂ r s).entries) ≡ some e)
        × (e.result ≡ clone_send_result (some r))
  unfolding run clone_send_result result_entry
  live-recorded drawn now t₂ t key token r s draws has_token free early =
      let stored : SendResult = record r { metadata = copy_map r.metadata } in
      let found =
        get-finalize t₂ key token stored ttl (now +ℤ ttl) (reserve drawn now key ttl s).1 has_token
          (reserve_free drawn token now key ttl s draws free).1 in
      (result_entry t₂ ttl stored, rw (found, lt→ltb_ℤ t (t₂ +ℤ ttl) early), refl)

  -- Until the TTL that started at `t₂` is over, every send of a message with the same idempotency
  -- key answers with a copy of the result and a nil error, and leaves the store as it is and the
  -- rest of the world as a draw and a look at the clock leave it.
  abbrev pub Deduplicates : Message → Time → SendResult → MemoryStore → Type 0
  Deduplicates msg t₂ r s =
      (ctx : Context) (msg' : Message) (u u₁ u₂ : V) (drawn : Str × Error) (token : Str) (t : Time)
      → msg'.idempotency_key ≡ msg.idempotency_key
      → rt.rand_read u ≡ (drawn, u₁)
      → Draws drawn token
      → rt.now u₁ ≡ (t, u₂)
      → t <ℤ t₂ +ℤ ttl
      → send_memory ctx msg' (s, u)
        ≡ (returned (clone_send_result (clone_send_result (some r)), nil), (s, u₂))

  -- Deduplication. A send on a free key reaches the provider, which gives a result r (with an error
  -- or without). Until the TTL that Finalize starts is over, any send of a message with the same
  -- idempotency key answers with a copy of r and a nil error; it changes neither the store nor, but
  -- for a draw and a look at the clock, the world: the provider is not called again.
  pub send_deduplicated :
      (ctx : Context) (msg : Message) (s : MemoryStore) (v v₁ v₂ v₃ v₄ v₅ : V) (drawn : Str × Error)
      (token : Str) (now t₁ t₂ : Time) (r : SendResult) (err : Error)
      (keyed : msg.idempotency_key ≢ []) (drew : rt.rand_read v ≡ (drawn, v₁))
      (draws : Draws drawn token) (has_token : token ≢ []) (read : rt.now v₁ ≡ (now, v₂))
      (free : live now (get (key_of msg) s.entries) ≡ none)
      (sent : p.send ctx (some msg) v₂ ≡ (returned (some r, err), v₃))
      (read₁ : rt.now v₃ ≡ (t₁, v₄)) (read₂ : rt.now v₄ ≡ (t₂, v₅))
      → (send_memory ctx msg (s, v)
          ≡ (returned (some r, err), (recorded drawn now (key_of msg) token t₂ r s, v₅)))
        × Deduplicates msg t₂ r (recorded drawn now (key_of msg) token t₂ r s)
  unfolding clone_send_result
  send_deduplicated ctx msg s v v₁ v₂ v₃ v₄ v₅ drawn token now t₁ t₂ r err keyed drew draws
        has_token read free sent read₁ read₂ =
      (
        send_first ctx msg s v v₁ v₂ v₃ v₄ v₅ drawn token now t₁ t₂ r err keyed drew draws has_token
            read free sent read₁ read₂,
        λ ctx' msg' u u₁ u₂ drawn' token' t same drew' draws' read' early.
            let (e, alive, same_result) =
              live-recorded drawn now t₂ t (key_of msg) token r s draws has_token free early in
            rw (same_result) at (
              send_live ctx' msg' (recorded drawn now (key_of msg) token t₂ r s) u u₁ u₂ drawn'
                token' t e (rw same keyed) drew' draws' read' (rw same alive)),
      )
