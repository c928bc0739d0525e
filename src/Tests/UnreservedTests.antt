-- ===== src/Tests/UnreservedTests.antt =====
-- idempotency.go: two sends of one message, the first of which fails with a result.
use provider_kit.Base.{bytes, false, some, ◌≡◌, refl, arith, pos, ◌+ℤ◌}
use provider_kit.GoMap.{get}
use provider_kit.Errors.{nil, to_error}
use provider_kit.SendResult.{SendResult}
use provider_kit.Provider.Actions.{returned}
use provider_kit.Idempotency.Store.{new_memory_store, lookup, hit, clone_send_result}
use provider_kit.Idempotency.Unreserved.{send_plainly, cached, send_unreserved_deduplicated}
use provider_kit.Tests.Samples.{background, result, message, timeout_error, ticking, failing}

abbrev failed : SendResult
failed = result false (bytes "m1")

send_unreserved_deduplicated_example :
    (send_plainly ticking failing (pos 100) background message (new_memory_store, 0) ≡ (
      returned (some failed, to_error timeout_error),
      (cached ticking failing (pos 100) message (pos 2) failed new_memory_store, 3),
    ))
    × (send_plainly ticking failing
          (pos 100)
          background
          message
          (cached ticking failing (pos 100) message (pos 2) failed new_memory_store, 3)
        ≡ (
          returned (clone_send_result (clone_send_result (some failed)), nil),
          (cached ticking failing (pos 100) message (pos 2) failed new_memory_store, 4),
        ))
unfolding lookup hit get new_memory_store bytes ◌+ℤ◌
send_unreserved_deduplicated_example =
    send_unreserved_deduplicated ticking failing (pos 100) background background message message
      new_memory_store 0 1 2 3 3 4 (pos 0) (pos 2) (pos 3) failed (to_error timeout_error)
      (λ e. cc e) refl refl refl refl refl refl (omega arith)
