-- ===== src/Idempotency/Memory.antt =====
-- idempotency.go: MemoryIdempotencyStore behind the interfaces IdempotencyStore and Reserver, in a
-- world that has the store beside whatever the rest of the program uses. Each method reads the
-- clock once; that the failing paths read it too only lets time pass there.
use provider_kit.Base.{some}
use provider_kit.Provider.{Provider, Runtime}
use provider_kit.Idempotency.{Reserver, IdempotencyStore}
use provider_kit.Idempotency.Store
use provider_kit.Idempotency.Store.{MemoryStore}

module _ {V : Type 0} where
  -- The runtime and a provider, in a world with a store beside theirs.
  abbrev pub runtime_beside : Runtime V → Runtime (MemoryStore × V)
  runtime_beside rt = record {
    now = λ (s, v). let (t, v') = rt.now v in (t, (s, v'));
    elapses = λ ctx d (s, v). let (b, v') = rt.elapses ctx d v in (b, (s, v'));
    rand_read = λ (s, v). let (drawn, v') = rt.rand_read v in (drawn, (s, v'));
  }

  abbrev pub provider_beside : Provider V → Provider (MemoryStore × V)
  provider_beside p = record {
    send = λ ctx msg (s, v). let (reply, v') = p.send ctx msg v in (reply, (s, v'));
    channel = p.channel;
    name = p.name;
    validate = p.validate;
  }

module _ {V : Type 0} (rt : Runtime V) where
  unfoldable pub memory_reserver : Reserver (MemoryStore × V)
  memory_reserver = record {
    reserve = λ ctx key ttl (s, v).
        let (drawn, v₁) = rt.rand_read v in
        let (now, v₂) = rt.now v₁ in
        let (answer, s') = Store.reserve drawn now key ttl s in (answer, (s', v₂));
    abandon = λ ctx key token (s, v). let (err, s') = Store.abandon key token s in (err, (s', v));
    finalize = λ ctx key token result ttl (s, v).
        let (now, v') = rt.now v in
        let (err, s') = Store.finalize now key token result ttl s in (err, (s', v'));
  }

  unfoldable pub memory_store : IdempotencyStore (MemoryStore × V)
  unfolding memory_reserver
  memory_store = record {
    get = λ ctx key (s, v). let (now, v') = rt.now v in (Store.lookup now key s, (s, v'));
    set = λ ctx key result ttl (s, v).
        let (now, v') = rt.now v in
        let (err, s') = Store.set now key result ttl s in (err, (s', v'));
    delete = λ ctx key (s, v). let (err, s') = Store.remove key s in (err, (s', v));
    reserver = some memory_reserver;
  }
