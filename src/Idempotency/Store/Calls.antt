-- ===== src/Idempotency/Store/Calls.antt =====
-- The calls of MemoryIdempotencyStore as data, so that they can be interleaved. Close is left out: it
-- does not touch the entries.
use provider_kit.Base.{Str, Option}
use provider_kit.SendResult.{SendResult, Time}
use provider_kit.Provider.{Duration}
use provider_kit.Idempotency.Store.{
  MemoryStore, reserve, abandon, finalize, set, remove, remove_expired,
}
use provider_kit.Errors.{Error}

pub data Call : Type 0 where
  reserves : (drawn : Str × Error) (now : Time) (key : Str) (ttl : Duration) → Call
  abandons : (key token : Str) → Call
  finalizes : (now : Time) (key token : Str) (result : Option SendResult) (ttl : Duration) → Call
  sets : (now : Time) (key : Str) (result : Option SendResult) (ttl : Duration) → Call
  deletes : (key : Str) → Call
  expires : (now : Time) → Call

-- The store after a call.
unfoldable pub run : Call → MemoryStore → MemoryStore
run (reserves drawn now key ttl) s = (reserve drawn now key ttl s).1
run (abandons key token) s = (abandon key token s).1
run (finalizes now key token result ttl) s = (finalize now key token result ttl s).1
run (sets now key result ttl) s = (set now key result ttl s).1
run (deletes key) s = (remove key s).1
run (expires now) s = remove_expired now s
