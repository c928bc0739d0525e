-- ===== src/Idempotency/Store/Fencing.antt =====
-- idempotency.go: a claim is fenced by its token, against every call but a Delete of its key and a Set
-- of a result for it.
use provider_kit.Base.{
  Str, ==_iff, Option, none, some, [], ◌∷◌, ◌≡◌, ◌≢◌, arith, ◌⊎◌, ◌+ℤ◌, ◌<ℤ◌, ◌≤ℤ◌,
}
use provider_kit.GoMap.{GoMap, get, get-put, get-delete, map_laws}
use provider_kit.Errors.{Error, nil}
use provider_kit.SendResult.{SendResult, Time}
use provider_kit.Provider.{Duration}
use provider_kit.Idempotency.Token.{new_claim_token}
use provider_kit.Idempotency.Store.{
  Entry, MemoryStore, claim, reserve, abandon, finalize, record_outcome, set, remove,
  remove_expired, expire,
}
use provider_kit.Idempotency.Store.Calls.{
  Call, reserves, abandons, finalizes, sets, deletes, expires, run,
}

-- The open claim of `token` on a key, and until when.
abbrev pub claim_of : Str → Time → Entry
claim_of token deadline = record { result = none; expires_at = deadline; token = token }

abbrev pub Holds : MemoryStore → Str → Str → Time → Type 0
Holds s key token deadline = get key s.entries ≡ some (claim_of token deadline)

-- A call by anyone but the holder, before the deadline: any call on another key; Reserve; Abandon
-- and Finalize with another token; Set with a nil result; the cleanup. A Delete of the key, and a
-- Set that records a result for it, are not fenced.
abbrev pub IsFenced : Str → Str → Time → Call → Type 0
IsFenced key token deadline (reserves drawn now k ttl) = (k ≢ key) ⊎ (now <ℤ deadline)
IsFenced key token deadline (abandons k t) = (k ≢ key) ⊎ (t ≢ token)
IsFenced key token deadline (finalizes now k t result ttl) = (k ≢ key) ⊎ (t ≢ token)
IsFenced key token deadline (sets now k result ttl) = (k ≢ key) ⊎ (result ≡ none)
IsFenced key token deadline (deletes k) = k ≢ key
IsFenced key token deadline (expires now) = now ≤ℤ deadline

get-expire_kept :
    (now : Time) (key : Str) (m : GoMap Entry) (e : Entry)
    → now ≤ℤ e.expires_at
    → get key m ≡ some e
    → get key (expire now m) ≡ some e
unfolding expire get
get-expire_kept now key [] e h g = cc
get-expire_kept now key ((k, f) ∷ m) e h g = ground (arith, get-expire_kept now key m e h)

claim-Holds :
    (drawn : Str × Error) (now : Time) (k : Str) (ttl : Duration) (key token : Str)
    (deadline : Time) (s : MemoryStore)
    → (k ≢ key) ⊎ (now <ℤ deadline)
    → Holds s key token deadline
    → Holds (claim drawn now k ttl s).1 key token deadline
unfolding claim
claim-Holds (t, nil) now k ttl key token deadline s other h =
    ground (arith, ==_iff k key, get-put key k (claim_of t (now +ℤ ttl)) s.entries)
claim-Holds (t, err) now k ttl key token deadline s other h = h

record_outcome-Holds :
    (now : Time) (k : Str) (result : Option SendResult) (ttl : Duration) (key token : Str)
    (deadline : Time) (s : MemoryStore)
    → k ≢ key
    → Holds s key token deadline
    → Holds (record_outcome now k result ttl s) key token deadline
unfolding record_outcome
record_outcome-Holds now k none ttl key token deadline s other h =
    simp map_laws (ground (arith, ==_iff k key))
record_outcome-Holds now k (some r) ttl key token deadline s other h =
    simp map_laws (ground (arith, ==_iff k key))

-- An open claim stays the entry of its key, with its token and deadline, under every call on another
-- key, and on its own key under Reserve before the deadline, Abandon and Finalize with another token,
-- Set with a nil result, and the cleanup up to the deadline. A Delete of the key and a Set that records
-- a result for it are not fenced and not covered.
pub run-Holds :
    (call : Call) (key token : Str) (deadline : Time) (s : MemoryStore)
    → IsFenced key token deadline call
    → Holds s key token deadline
    → Holds (run call s) key token deadline
unfolding run reserve abandon finalize set remove remove_expired
run-Holds (reserves drawn now k ttl) key token deadline s other h =
    claim-Holds (new_claim_token drawn) now k ttl key token deadline s other h
run-Holds (abandons k t) key token deadline s other h =
    ground (arith, ==_iff k key, ==_iff token t, get-delete key k s.entries)
run-Holds (finalizes now k t result ttl) key token deadline s other h = ground (
  arith,
  ==_iff k key,
  ==_iff token t,
  record_outcome-Holds now k result ttl key token deadline s,
)
run-Holds (sets now k none ttl) key token deadline s other h =
    ground (arith, ==_iff k key, get-delete key k s.entries)
run-Holds (sets now k (some r) ttl) key token deadline s other h =
    simp map_laws (ground (arith, ==_iff k key))
run-Holds (deletes k) key token deadline s other h = simp map_laws (ground (arith, ==_iff k key))
run-Holds (expires now) key token deadline s other h = get-expire_kept now key s.entries _ other h
