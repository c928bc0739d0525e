-- ===== src/Idempotency/Unreserved.antt =====
-- idempotency.go: sendUnreserved, over a store in memory that does not offer Reserve.
use provider_kit.Base.{Str, ==_refl, none, some, [], true, false, ◌≡◌, ◌≢◌, arith, ◌+ℤ◌, ◌≤ℤ◌}
use provider_kit.GoMap.{get-put}
use provider_kit.Errors.{Error, nil}
use provider_kit.SendResult.{SendResult, Time, copy_map}
use provider_kit.Message.{Message}
use provider_kit.Provider.{Context, Duration, Reply, Provider, Runtime}
use provider_kit.Provider.Actions.{Action, returned}
use provider_kit.Idempotency.Store.{MemoryStore, result_entry, hit, lookup, set, clone_send_result}
use provider_kit.Idempotency.Memory.{runtime_beside, provider_beside, memory_store}
use provider_kit.Idempotency.Sending.{ne-nil→false}
use provider_kit.Idempotency.{
  IdempotencyStore, build_cache_key, looked_up, store_reply, send_unreserved, send_keyed, send,
}

-- Get after Set of a result, up to the end of its TTL.
lookup-set :
    (t now : Time) (key : Str) (r : SendResult) (ttl : Duration) (s : MemoryStore)
    → now ≤ℤ t +ℤ ttl
    → lookup now key (set t key (some r) ttl s).1 ≡ (clone_send_result (some r), true, nil)
unfolding lookup hit set result_entry
lookup-set t now key r ttl s early =
    rw (get-put key key (result_entry t ttl r) s.entries, ==_refl key) (ground arith)

module _ {V : Type 0} (rt : Runtime V) (p : Provider V) (ttl : Duration) where
  -- The store as one that has only the methods of IdempotencyStore.
  abbrev pub plain_store : IdempotencyStore (MemoryStore × V)
  plain_store = record (memory_store rt) { reserver = none }

  abbrev pub send_plainly : Context → Message → Action (MemoryStore × V) Reply
  send_plainly ctx msg = send (runtime_beside rt) (provider_beside p) plain_store ttl ctx (some msg)

  abbrev pub plain_key : Message → Str
  plain_key msg = build_cache_key (provider_beside p) msg.idempotency_key

  -- The store after a send that gave a result at `t`.
  abbrev pub cached : Message → Time → SendResult → MemoryStore → MemoryStore
  cached msg t r s = (set t (plain_key msg) (clone_send_result (some r)) ttl s).1

  send-looked_up :
      (ctx : Context) (msg : Message) (s : MemoryStore) (v v₁ : V) (now : Time)
      → msg.idempotency_key ≢ []
      → rt.now v ≡ (now, v₁)
      → send_plainly ctx msg (s, v)
        ≡ looked_up
            (runtime_beside rt)
            (provider_beside p)
            plain_store
            ttl
            ctx
            (plain_key msg)
            msg
            (lookup now (plain_key msg) s)
            (s, v₁)
  unfolding send send_keyed send_unreserved memory_store
  send-looked_up ctx msg s v v₁ now keyed read = rw (ne-nil→false msg.idempotency_key keyed, read)

  -- Without Reserve, one send after the other is deduplicated too. A send whose key Get does not find
  -- reaches the provider, which gives a result r, with an error or without, and Set records it; its
  -- answer is that of the provider. A later send of the same key, with nothing in between on the
  -- store, does not reach the provider until the TTL is over: it answers with a copy of the recorded
  -- copy and a nil error, and changes nothing but for a look at the clock.
  pub send_unreserved_deduplicated :
      (ctx ctx' : Context) (msg msg' : Message) (s : MemoryStore) (v v₁ v₂ v₃ u u₁ : V)
      (now t t' : Time) (r : SendResult) (err : Error) (keyed : msg.idempotency_key ≢ [])
      (same : msg'.idempotency_key ≡ msg.idempotency_key) (read : rt.now v ≡ (now, v₁))
      (missed : lookup now (plain_key msg) s ≡ (none, false, nil))
      (sent : p.send ctx (some msg) v₁ ≡ (returned (some r, err), v₂)) (read₂ : rt.now v₂ ≡ (t, v₃))
      (read' : rt.now u ≡ (t', u₁)) (early : t' ≤ℤ t +ℤ ttl)
      → (send_plainly ctx msg (s, v) ≡ (returned (some r, err), (cached msg t r s, v₃)))
        × (send_plainly ctx' msg' (cached msg t r s, u) ≡ (
          returned (clone_send_result (clone_send_result (some r)), nil),
          (cached msg t r s, u₁),
        ))
  unfolding looked_up store_reply memory_store clone_send_result
  send_unreserved_deduplicated ctx ctx' msg msg' s v v₁ v₂ v₃ u u₁ now t t' r err keyed same read
        missed sent read₂ read' early =
      let copy : SendResult = record r { metadata = copy_map r.metadata } in
      (
        rw (send-looked_up ctx msg s v v₁ now keyed read, missed, sent, read₂),
        rw (
          send-looked_up ctx' msg' (cached msg t r s) u u₁ t' (rw same keyed) read',
          same,
          lookup-set t t' (plain_key msg) copy ttl s early,
        ),
      )
