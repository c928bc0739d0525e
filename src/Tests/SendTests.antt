-- ===== src/Tests/SendTests.antt =====
-- idempotency.go: sends over the store in memory.
use provider_kit.Base.{
  Bool-cases, nat_eq, inl, inr, ℕ, Str, bytes, ◌==◌, false, none, some, [], ◌∷◌, ◌≡◌, refl, arith,
  pos, ◌+ℤ◌,
}
use provider_kit.GoMap.{get}
use provider_kit.Errors.{nil, to_error}
use provider_kit.SendResult.{SendResult}
use provider_kit.Provider.Actions.{returned}
use provider_kit.Idempotency.{build_cache_key}
use provider_kit.Idempotency.Token.{new_claim_token}
use provider_kit.Idempotency.Store.{
  MemoryStore, new_memory_store, reserve, clone_send_result, err_send_in_flight,
}
use provider_kit.Idempotency.Store.Fencing.{claim_of}
use provider_kit.Idempotency.Deduplication.{
  send_memory, key_of, recorded, Deduplicates, send_live, send_deduplicated,
}
use provider_kit.Idempotency.Keys.{build_cache_key_injective}
use provider_kit.Idempotency.Senders.{
  IsFresh, idle, System, update, entered, enter, Reach, here, next,
}
use provider_kit.Idempotency.Senders.Progress.{Progress, progress}
use provider_kit.Idempotency.Senders.Exclusion.{sending_exclusive}
use provider_kit.Errors.{get_error_reason, as_provider_error}
use provider_kit.Retry.{contains, is_retryable, attempts, judge}
use provider_kit.Composition.Retried.{retried, repeated, retried-idempotent}
use provider_kit.Tests.Samples.{
  exact_float, config, background, result, message, timeout_error, ticking, failing,
}

abbrev token : Str
token = bytes "00bc"

abbrev failed : SendResult
failed = result false (bytes "m1")

send_deduplicated_example :
    (send_memory ticking failing (pos 100) background message (new_memory_store, 0) ≡ (
      returned (some failed, to_error timeout_error),
      (
        recorded ticking failing
            (pos 100)
            (0 ∷ 0xbc ∷ [], nil)
            (pos 1)
            (key_of ticking failing (pos 100) message)
            token
            (pos 4)
            failed
            new_memory_store,
        5,
      ),
    ))
    × Deduplicates ticking failing (pos 100) message (pos 4) failed (
        recorded ticking failing
          (pos 100)
          (0 ∷ 0xbc ∷ [], nil)
          (pos 1)
          (key_of ticking failing (pos 100) message)
          token
          (pos 4)
          failed
          new_memory_store)
unfolding new_claim_token bytes get new_memory_store
send_deduplicated_example =
    send_deduplicated ticking failing (pos 100) background message new_memory_store 0 1 2 3 4 5
      (0 ∷ 0xbc ∷ [], nil) token (pos 1) (pos 3) (pos 4) failed (to_error timeout_error) (λ e. cc e)
      refl refl (λ e. cc e) refl refl refl refl refl

-- The key of the message is claimed until 100, by somebody else.
abbrev contended : MemoryStore
contended = record {
  entries = (key_of ticking failing (pos 60) message, claim_of token (pos 100)) ∷ [];
  closed = false;
}

send_live_example :
    send_memory ticking failing (pos 60) background message (contended, 7)
    ≡ (returned (none, err_send_in_flight), (contended, 9))
unfolding new_claim_token bytes get ◌==◌ clone_send_result build_cache_key
send_live_example =
    send_live ticking failing (pos 60) background message contended 7 8 9 (7 ∷ 0xbc ∷ [], nil)
      (bytes "07bc") (pos 8) (claim_of token (pos 100)) (λ e. cc e) refl refl refl refl

build_cache_key_injective_example : (failing.channel ≡ failing.channel) × (bytes "k1" ≡ bytes "k1")
unfolding bytes
build_cache_key_injective_example =
    build_cache_key_injective failing failing (bytes "k1") (bytes "k1") (omega arith) (omega arith)
      refl

abbrev quiet : System
quiet = record { store = new_memory_store; now = pos 5; phase = λ i. idle }

abbrev busy : System
busy = record quiet {
  store =
      (reserve (0 ∷ 0xbc ∷ [], nil) (pos 4) (bytes "idem:email:k1") (pos 60) new_memory_store).1;
  phase =
      update 3
        (entered
          (reserve (0 ∷ 0xbc ∷ [], nil) (pos 4) (bytes "idem:email:k1") (pos 60) new_memory_store).0
          (bytes "idem:email:k1") (pos 4 +ℤ pos 60))
        quiet.phase;
}

Reach-busy : Reach quiet busy
Reach-busy = next here (
    enter quiet 3 (0 ∷ 0xbc ∷ [], nil) (pos 4) (bytes "idem:email:k1") (pos 60) refl (omega arith)
      (λ j k t d h. cc h))

sending_exclusive_example : ◌≡◌ {A = ℕ} 3 3
unfolding reserve new_claim_token bytes get new_memory_store entered ◌+ℤ◌
sending_exclusive_example =
    sending_exclusive quiet busy (λ i. refl) Reach-busy 3 3 (bytes "idem:email:k1") token token
      (pos 64) (pos 64) refl refl (omega arith) (omega arith)

-- Three attempts are allowed; the provider, which always fails, is called by the first one alone.
retried-idempotent_example :
    (retried exact_float ticking config failing (pos 100)).send background
      (some message)
      (new_memory_store, 0)
    ≡ (
      returned (repeated exact_float ticking config failing (pos 100) failed),
      (
        recorded ticking failing
            (pos 100)
            (0 ∷ 0xbc ∷ [], nil)
            (pos 1)
            (key_of ticking failing (pos 100) message)
            token
            (pos 4)
            failed
            new_memory_store,
        9,
      ),
    )
unfolding new_claim_token bytes get new_memory_store judge is_retryable get_error_reason contains
    attempts ◌==◌ as_provider_error
retried-idempotent_example =
    retried-idempotent exact_float ticking config failing (pos 100) background message
      new_memory_store 0 1 2 3 4 5 9 (0 ∷ 0xbc ∷ [], nil) token (pos 1) (pos 3) (pos 4) failed
      (to_error timeout_error) 1 (λ e. cc e) refl refl (λ e. cc e) refl refl refl refl refl refl
      refl refl
      (
        5,
        6,
        7,
        (5 ∷ 0xbc ∷ [], nil),
        bytes "05bc",
        pos 6,
        refl,
        refl,
        refl,
        refl,
        omega arith,
        (
          7,
          8,
          9,
          (7 ∷ 0xbc ∷ [], nil),
          bytes "07bc",
          pos 8,
          refl,
          refl,
          refl,
          refl,
          omega arith,
          refl,
        ),
      )

busy-IsFresh : IsFresh busy (bytes "01bc")
unfolding bytes reserve new_claim_token get new_memory_store entered
busy-IsFresh j key t deadline h = elim (Bool-cases (nat_eq 3 j)) [
  | inl three ↦ ground arith
  | inr other ↦ absurd (ground arith)
]

-- The call 4 waits for the claim of the call 3 to expire, at 64.
progress_example :
    Progress busy 4 (1 ∷ 0xbc ∷ [], nil) (bytes "idem:email:k1") (bytes "01bc") (pos 60)
unfolding new_claim_token bytes
progress_example =
    progress busy 4 (1 ∷ 0xbc ∷ [], nil) (bytes "idem:email:k1") (bytes "01bc") (pos 60) refl refl
      (λ e. cc e) busy-IsFresh
