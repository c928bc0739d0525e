-- ===== src/Tests/StoreTests.antt =====
-- idempotency.go: the store in memory on concrete calls.
use provider_kit.Base.{
  Str, bytes, ◌==◌, true, false, none, some, [], ◌∷◌, ◌≡◌, refl, arith, pos, ◌+ℤ◌, ◌≤ℤ◌, ◌<ℤ◌, inr,
}
use provider_kit.GoMap.{get}
use provider_kit.Errors.{Error, nil}
use provider_kit.SendResult.{SendResult, Time}
use provider_kit.Provider.{Duration}
use provider_kit.Idempotency.Token.{new_claim_token}
use provider_kit.Idempotency.Store.{
  Entry, MemoryStore, new_memory_store, reserve, abandon, finalize, lookup, err_claim_superseded,
  clone_send_result,
}
use provider_kit.Idempotency.Store.Calls.{reserves, run}
use provider_kit.Idempotency.Store.Fencing.{Holds, run-Holds, claim_of}
use provider_kit.Idempotency.Store.WellFormed.{
  IsEntry, IsWellFormed, run-IsWellFormed, new_memory_store-IsWellFormed,
}
use provider_kit.Idempotency.Store.Recorded.{Draws, finalize_recorded, recorded_is_final}
use provider_kit.Tests.Samples.{result}

abbrev key : Str
key = bytes "idem:email:k1"

abbrev drawn : Str × Error
drawn = (0x0a ∷ 0xbc ∷ [], nil)

abbrev token : Str
token = bytes "0abc"

abbrev later_drawn : Str × Error
later_drawn = (0xff ∷ 0x01 ∷ [], nil)

abbrev claimed : MemoryStore
claimed = record { entries = (key, claim_of token (pos 100)) ∷ []; closed = false }

abbrev sent : SendResult
sent = result true (bytes "m1")

abbrev completed : MemoryStore
completed = record {
  entries = (key, record { result = some sent; expires_at = pos 100; token = [] }) ∷ [];
  closed = false;
}

reserve_twice : (reserve later_drawn (pos 50) key (pos 60) claimed).0 ≡ ([], none, nil)
unfolding reserve new_claim_token clone_send_result get ◌==◌ bytes ◌+ℤ◌
reserve_twice = refl

run-Holds_example :
    Holds (run (reserves later_drawn (pos 50) key (pos 60)) claimed) key token (pos 100)
unfolding get ◌==◌ bytes
run-Holds_example =
    run-Holds (reserves later_drawn (pos 50) key (pos 60)) key token (pos 100) claimed
      (inr (omega arith)) refl

run-IsWellFormed_example :
    IsWellFormed (run (reserves drawn (pos 0) key (pos 100)) new_memory_store)
run-IsWellFormed_example =
    run-IsWellFormed (reserves drawn (pos 0) key (pos 100)) new_memory_store (λ e. cc e)
      new_memory_store-IsWellFormed

finalize_recorded_example :
    ((finalize (pos 10) key token (some sent) (pos 60) claimed).0 ≡ nil)
    × ((t : Time)
        → t ≤ℤ pos 10 +ℤ pos 60
        → lookup t key (finalize (pos 10) key token (some sent) (pos 60) claimed).1
          ≡ (clone_send_result (some sent), true, nil))
    × ((t : Time) (d : Str × Error) (token' : Str) (ttl' : Duration)
        → Draws d token'
        → t <ℤ pos 10 +ℤ pos 60
        → (reserve d t key ttl' (finalize (pos 10) key token (some sent) (pos 60) claimed).1).0
          ≡ ([], clone_send_result (some sent), nil))
unfolding get ◌==◌ bytes
finalize_recorded_example =
    finalize_recorded (pos 10) key token sent (pos 60) (pos 100) claimed (λ e. cc e) refl

completed-IsEntry : (k : Str) (e : Entry) → get k completed.entries ≡ some e → IsEntry e
unfolding get
completed-IsEntry k e h = ground arith

completed-IsWellFormed : IsWellFormed completed
unfolding get
completed-IsWellFormed = record { unique = (refl, tt); each = completed-IsEntry }

recorded_is_final_example :
    (finalize (pos 10) key token none (pos 60) completed ≡ (err_claim_superseded, completed))
    × (abandon key token completed ≡ (nil, completed))
unfolding get ◌==◌ bytes
recorded_is_final_example =
    recorded_is_final (pos 10) key token none (pos 60) completed
      (record { result = some sent; expires_at = pos 100; token = [] }) completed-IsWellFormed refl
      (λ e. cc e)
