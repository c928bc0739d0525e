-- ===== src/Idempotency/Store/WellFormed.antt =====
-- idempotency.go: the shape of the store. An entry is an open claim with a token or a recorded result
-- without one, so that a late Abandon or Finalize never touches a recorded outcome.
use provider_kit.Base.{
  Str, ==_iff, none, some, [], ◌∷◌, ◌≡◌, ◌≢◌, refl, arith, ◌⊎◌, inl, inr, if◌then◌else◌, ltb_ℤ,
}
use provider_kit.GoMap.{GoMap, get, put, delete, get-put, get-delete}
use provider_kit.GoMap.Unique.{Unique, put-Unique, delete-Unique}
use provider_kit.Errors.{Error, nil}
use provider_kit.SendResult.{SendResult, Time}
use provider_kit.Provider.{Duration}
use provider_kit.Idempotency.Token.{new_claim_token, hex_encode}
use provider_kit.Idempotency.Store.{
  Entry, MemoryStore, new_memory_store, claim, reserve, abandon, finalize, record_outcome, set,
  remove, remove_expired, expire, claim_entry, result_entry,
}
use provider_kit.Idempotency.Store.Calls.{
  Call, reserves, abandons, finalizes, sets, deletes, expires, run,
}

-- A claim has a token and no result, a recorded outcome a result and no token.
abbrev pub IsEntry : Entry → Type 0
IsEntry e = ((e.result ≡ none) × (e.token ≢ [])) ⊎ ((e.result ≢ none) × (e.token ≡ []))

abbrev AreEntries : GoMap Entry → Type 0
AreEntries m = (key : Str) (e : Entry) → get key m ≡ some e → IsEntry e

-- Every key is held once.
pub record IsWellFormed (s : MemoryStore) : Type 0 where
  pub unique : Unique s.entries
  pub each : (key : Str) (e : Entry) → get key s.entries ≡ some e → IsEntry e

put-AreEntries :
    (k : Str) (e : Entry) (m : GoMap Entry) → IsEntry e → AreEntries m → AreEntries (put k e m)
put-AreEntries k e m h each j f g = ground (arith, get-put j k e m, each j f)

delete-AreEntries : (k : Str) (m : GoMap Entry) → AreEntries m → AreEntries (delete k m)
delete-AreEntries k m each j f g = ground (arith, get-delete j k m, each j f)

put-IsWellFormed :
    (k : Str) (e : Entry) (s : MemoryStore)
    → IsEntry e
    → IsWellFormed s
    → IsWellFormed (record s { entries = put k e s.entries })
put-IsWellFormed k e s h wf = record {
  unique = put-Unique k e s.entries wf.unique;
  each = put-AreEntries k e s.entries h wf.each;
}

delete-IsWellFormed :
    (k : Str) (s : MemoryStore)
    → IsWellFormed s
    → IsWellFormed (record s { entries = delete k s.entries })
delete-IsWellFormed k s wf = record {
  unique = delete-Unique k s.entries wf.unique;
  each = delete-AreEntries k s.entries wf.each;
}

get-expire-none :
    (now : Time) (key : Str) (m : GoMap Entry) → get key m ≡ none → get key (expire now m) ≡ none
unfolding expire get
get-expire-none now key [] g = refl
get-expire-none now key ((k, f) ∷ m) g = ground (arith, get-expire-none now key m)

expire-Unique : (now : Time) (m : GoMap Entry) → Unique m → Unique (expire now m)
unfolding expire
expire-Unique now [] u = tt
expire-Unique now ((k, f) ∷ m) u =
    ground (arith, expire-Unique now m u.1, get-expire-none now k m u.0)

-- The cleanup removes what has expired, and nothing else.
pub get-expire :
    (now : Time) (key : Str) (m : GoMap Entry)
    → Unique m
    → get key (expire now m)
      ≡ elim (get key m) [ none ↦ none | some e ↦ if ltb_ℤ e.expires_at now then none else some e ]
unfolding expire get
get-expire now key [] u = refl
get-expire now key ((k, f) ∷ m) u =
    ground (arith, get-expire now key m u.1, get-expire-none now key m, ==_iff k key)

expire-AreEntries :
    (now : Time) (m : GoMap Entry) → Unique m → AreEntries m → AreEntries (expire now m)
expire-AreEntries now m u each j f g = ground (arith, get-expire now j m u, each j f)

hex_encode-ne_nil : (buf : Str) → buf ≢ [] → hex_encode buf ≢ []
unfolding hex_encode
hex_encode-ne_nil [] h = absurd (h refl)
hex_encode-ne_nil (b ∷ buf) h = cc

-- `rand.Read` fills the buffer, which is not empty, or returns an error.
abbrev pub IsFilled : Str × Error → Type 0
IsFilled (buf, err) = buf ≢ []

claim_entry-IsEntry :
    (now : Time) (ttl : Duration) (token : Str) → token ≢ [] → IsEntry (claim_entry now ttl token)
unfolding claim_entry
claim_entry-IsEntry now ttl token h = inl (refl, h)

result_entry-IsEntry :
    (now : Time) (ttl : Duration) (r : SendResult) → IsEntry (result_entry now ttl r)
unfolding result_entry
result_entry-IsEntry now ttl r = inr (cc, refl)

-- The draw that a call makes, if it makes one, fills the buffer.
abbrev pub DrawsBytes : Call → Type 0
DrawsBytes (reserves drawn now key ttl) = IsFilled drawn
DrawsBytes (abandons key token) = Unit
DrawsBytes (finalizes now key token result ttl) = Unit
DrawsBytes (sets now key result ttl) = Unit
DrawsBytes (deletes key) = Unit
DrawsBytes (expires now) = Unit

-- Every call keeps the store well formed.
pub run-IsWellFormed :
    (call : Call) (s : MemoryStore) → DrawsBytes call → IsWellFormed s → IsWellFormed (run call s)
unfolding run reserve claim new_claim_token abandon finalize record_outcome set remove
    remove_expired
run-IsWellFormed (reserves (buf, nil) now k ttl) s d wf = ground (
  arith,
  put-IsWellFormed k (claim_entry now ttl (hex_encode buf)) s
      (claim_entry-IsEntry now ttl (hex_encode buf) (hex_encode-ne_nil buf d)) wf,
)
run-IsWellFormed (reserves (buf, err) now k ttl) s d wf = wf
run-IsWellFormed (abandons k t) s d wf = ground (arith, delete-IsWellFormed k s wf)
run-IsWellFormed (finalizes now k t none ttl) s d wf = ground (arith, delete-IsWellFormed k s wf)
run-IsWellFormed (finalizes now k t (some r) ttl) s d wf =
    ground
      (arith, put-IsWellFormed k (result_entry now ttl r) s (result_entry-IsEntry now ttl r) wf)
run-IsWellFormed (sets now k none ttl) s d wf = ground (arith, delete-IsWellFormed k s wf)
run-IsWellFormed (sets now k (some r) ttl) s d wf =
    put-IsWellFormed k (result_entry now ttl r) s (result_entry-IsEntry now ttl r) wf
run-IsWellFormed (deletes k) s d wf = delete-IsWellFormed k s wf
run-IsWellFormed (expires now) s d wf = record {
  unique = expire-Unique now s.entries wf.unique;
  each = expire-AreEntries now s.entries wf.unique wf.each;
}

pub new_memory_store-IsWellFormed : IsWellFormed new_memory_store
unfolding new_memory_store get
new_memory_store-IsWellFormed = record { unique = tt; each = λ key e h. cc }
