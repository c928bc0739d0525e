-- ===== src/Idempotency/Store.antt =====
-- idempotency.go: MemoryIdempotencyStore. Each method runs under the store's lock, so it is one
-- function on the state; the time that it reads and what `rand.Read` gave are arguments.
pub mod Calls
pub mod Fencing
pub mod WellFormed
pub mod Recorded
use provider_kit.Base.{
  Str, bytes, ◌==◌, Bool, true, false, not, ◌&&◌, Option, none, some, List, [], ◌∷◌, ◌+ℤ◌,
  if◌then◌else◌,
}
use provider_kit.GoMap.{GoMap, get, put, delete}
use provider_kit.Errors.{Error, nil, plain}
use provider_kit.SendResult.{SendResult, Time, copy_map}
use provider_kit.Provider.{Duration, before, after}
use provider_kit.Idempotency.Token.{new_claim_token}

abbrev pub err_send_in_flight : Error
err_send_in_flight = plain (bytes "a send for this idempotency key is already in flight")

abbrev pub err_claim_superseded : Error
err_claim_superseded = plain (bytes "idempotency claim superseded")

-- cloneSendResult: the metadata map and the error are copied.
unfoldable pub clone_send_result : Option SendResult → Option SendResult
clone_send_result none = none
clone_send_result (some src) = some (record src { metadata = copy_map src.metadata })

-- `result` is none while a send is in flight.
pub record Entry : Type 0 where
  pub result : Option SendResult
  pub expires_at : Time
  pub token : Str

-- `closed` is set once the channel `done` is closed.
pub record MemoryStore : Type 0 where
  pub entries : GoMap Entry
  pub closed : Bool

unfoldable pub new_memory_store : MemoryStore
new_memory_store = record { entries = []; closed = false }

-- The channel is closed by a sync.Once.
unfoldable pub close : MemoryStore → Error × MemoryStore
close s = (nil, record s { closed = true })

abbrev pub is_some {ℓ} : {A : Type ℓ} → Option A → Bool
is_some none = false
is_some (some a) = true

unfoldable pub claim_entry : Time → Duration → Str → Entry
claim_entry now ttl token = record { result = none; expires_at = now +ℤ ttl; token = token }

unfoldable pub result_entry : Time → Duration → SendResult → Entry
result_entry now ttl r = record { result = some r; expires_at = now +ℤ ttl; token = [] }

abbrev assign : Str → Entry → MemoryStore → MemoryStore
assign key e s = record s { entries = put key e s.entries }

abbrev drop : Str → MemoryStore → MemoryStore
drop key s = record s { entries = delete key s.entries }

-- The entry that holds a key at an instant, if there is one: `ok && now.Before(entry.expiresAt)`.
abbrev pub live : Time → Option Entry → Option Entry
live now none = none
live now (some e) = if before now e.expires_at then some e else none

unfoldable pub claim :
    Str × Error
    → Time
    → Str
    → Duration
    → MemoryStore
    → (Str × Option SendResult × Error) × MemoryStore
unfolding claim_entry
claim (token, nil) now key ttl s = elim (live now (get key s.entries)) [
  | some e ↦ (([], clone_send_result e.result, nil), s)
  | none ↦ ((token, none, nil), assign key (claim_entry now ttl token) s)
]
claim (token, err) now key ttl s = (([], none, err), s)

-- Reserve: a token if the key was claimed, or else the recorded result.
unfoldable pub reserve :
    Str × Error
    → Time
    → Str
    → Duration
    → MemoryStore
    → (Str × Option SendResult × Error) × MemoryStore
unfolding claim
reserve drawn now key ttl s = claim (new_claim_token drawn) now key ttl s

-- entry, ok := s.entries[key]; ok && entry.result == nil && entry.token == token
abbrev open_claim : Option Entry → Str → Bool
open_claim none token = false
open_claim (some e) token = not (is_some e.result) && e.token == token

unfoldable pub abandon : Str → Str → MemoryStore → Error × MemoryStore
abandon key token s =
    if token == []
    then (nil, s)
    else if open_claim (get key s.entries) token
    then (nil, drop key s)
    else (nil, s)

-- entry, ok := s.entries[key]; ok && entry.token != token
abbrev superseded : Option Entry → Str → Bool
superseded none token = false
superseded (some e) token = not (e.token == token)

unfoldable pub record_outcome :
    Time → Str → Option SendResult → Duration → MemoryStore → MemoryStore
unfolding result_entry
record_outcome now key none ttl s = drop key s
record_outcome now key (some r) ttl s = assign key (result_entry now ttl r) s

unfoldable pub finalize :
    Time → Str → Str → Option SendResult → Duration → MemoryStore → Error × MemoryStore
unfolding record_outcome
finalize now key token result ttl s =
    if token == []
    then (err_claim_superseded, s)
    else if superseded (get key s.entries) token
    then (err_claim_superseded, s)
    else (nil, record_outcome now key result ttl s)

-- Get: a hit needs a result that has not expired.
unfoldable pub hit : Time → Option Entry → Option SendResult × Bool × Error
hit now none = (none, false, nil)
hit now (some e) = if after now e.expires_at then (none, false, nil) else elim e.result [
  | none ↦ (none, false, nil)
  | some r ↦ (clone_send_result (some r), true, nil)
]

unfoldable pub lookup : Time → Str → MemoryStore → Option SendResult × Bool × Error
unfolding hit
lookup now key s = hit now (get key s.entries)

abbrev completed : Option Entry → Bool
completed none = false
completed (some e) = is_some e.result

-- Set: a nil result clears a completed entry, and nothing else.
unfoldable pub set : Time → Str → Option SendResult → Duration → MemoryStore → Error × MemoryStore
unfolding result_entry
set now key none ttl s = (nil, if completed (get key s.entries) then drop key s else s)
set now key (some r) ttl s = (nil, assign key (result_entry now ttl r) s)

unfoldable pub remove : Str → MemoryStore → Error × MemoryStore
remove key s = (nil, drop key s)

unfoldable pub expire : Time → GoMap Entry → GoMap Entry
expire now [] = []
expire now ((k, e) ∷ m) =
    let rest = expire now m in if after now e.expires_at then rest else (k, e) ∷ rest

unfoldable pub remove_expired : Time → MemoryStore → MemoryStore
unfolding expire
remove_expired now s = record s { entries = expire now s.entries }

-- What wakes the cleanup goroutine.
pub data Wake : Type 0 where
  tick : Time → Wake
  done : Wake

-- The loop of `cleanup`.
unfoldable pub cleanup : List Wake → MemoryStore → MemoryStore
unfolding remove_expired
cleanup [] s = s
cleanup (tick now ∷ wakes) s = cleanup wakes (remove_expired now s)
cleanup (done ∷ wakes) s = s
