-- ===== src/Idempotency/Store/Recorded.antt =====
-- idempotency.go: what Reserve and Get answer after a claim was granted, completed or released.
use provider_kit.Base.{
  Str, ==_iff, ==_refl, true, Option, none, some, [], ◌≡◌, ◌≢◌, arith, ◌+ℤ◌, ◌<ℤ◌, ◌≤ℤ◌,
}
use provider_kit.GoMap.{get, get-put, get-delete}
use provider_kit.Errors.{Error, nil}
use provider_kit.SendResult.{SendResult, Time}
use provider_kit.Provider.{Duration}
use provider_kit.Idempotency.Token.{new_claim_token}
use provider_kit.Idempotency.Store.{
  Entry, MemoryStore, live, claim, claim_entry, result_entry, reserve, abandon, finalize,
  record_outcome, hit, lookup, err_claim_superseded, clone_send_result,
}
use provider_kit.Idempotency.Store.Fencing.{Holds, claim_of}
use provider_kit.Idempotency.Store.WellFormed.{IsWellFormed}

-- A drawn token, when `rand.Read` succeeds.
abbrev pub Draws : Str × Error → Str → Type 0
Draws drawn token = new_claim_token drawn ≡ (token, nil)

-- Reserve claims a key that no live entry holds: the caller gets its token, holds the key until the
-- TTL is over, and no other key changes.
pub reserve_free :
    (drawn : Str × Error) (token : Str) (now : Time) (key : Str) (ttl : Duration) (s : MemoryStore)
    → Draws drawn token
    → live now (get key s.entries) ≡ none
    → ((reserve drawn now key ttl s).0 ≡ (token, none, nil))
      × Holds (reserve drawn now key ttl s).1 key token (now +ℤ ttl)
      × ((j : Str) → key ≢ j → get j (reserve drawn now key ttl s).1.entries ≡ get j s.entries)
unfolding reserve claim claim_entry
reserve_free drawn token now key ttl s d free = (
  ground arith,
  ground (arith, ==_refl key, get-put key key (claim_of token (now +ℤ ttl)) s.entries),
  λ j ne. ground (arith, ==_iff key j, get-put j key (claim_of token (now +ℤ ttl)) s.entries),
)

-- Reserve does not claim a key that a live entry holds: it changes nothing and answers with a copy
-- of the result, or with none for an open claim.
pub reserve_live :
    (drawn : Str × Error) (token : Str) (now : Time) (key : Str) (ttl : Duration) (s : MemoryStore)
    (e : Entry)
    → Draws drawn token
    → live now (get key s.entries) ≡ some e
    → reserve drawn now key ttl s ≡ (([], clone_send_result e.result, nil), s)
unfolding reserve claim
reserve_live drawn token now key ttl s e d alive = ground arith

module _ (now : Time) (key token : Str) (r : SendResult) (ttl : Duration) (deadline : Time)
    (s : MemoryStore) (has_token : token ≢ []) (held : Holds s key token deadline) where
  pub get-finalize :
      get key (finalize now key token (some r) ttl s).1.entries ≡ some (result_entry now ttl r)
  unfolding finalize record_outcome
  get-finalize = ground (
    arith,
    ==_iff token [],
    ==_refl token,
    ==_refl key,
    get-put key key (result_entry now ttl r) s.entries,
  )

  finalize_accepted : (finalize now key token (some r) ttl s).0 ≡ nil
  unfolding finalize
  finalize_accepted = ground (arith, ==_iff token [], ==_refl token)

  -- The holder of a claim completes it: Finalize succeeds; until the new TTL is over Get hits with
  -- a copy of the result; and before that instant Reserve hands out that copy and no token, so
  -- nobody else sends.
  pub finalize_recorded :
      ((finalize now key token (some r) ttl s).0 ≡ nil)
      × ((t : Time)
          → t ≤ℤ now +ℤ ttl
          → lookup t key (finalize now key token (some r) ttl s).1
            ≡ (clone_send_result (some r), true, nil))
      × ((t : Time) (drawn : Str × Error) (token' : Str) (ttl' : Duration)
          → Draws drawn token'
          → t <ℤ now +ℤ ttl
          → (reserve drawn t key ttl' (finalize now key token (some r) ttl s).1).0
            ≡ ([], clone_send_result (some r), nil))
  unfolding lookup hit reserve claim result_entry
  finalize_recorded = (
    finalize_accepted,
    λ t alive. rw get-finalize (ground arith),
    λ t drawn token' ttl' d alive. ground (arith, get-finalize),
  )

  -- A claim that is given up, by Abandon or by Finalize with a nil result, leaves the key free.
  pub release_frees :
      ((abandon key token s).0 ≡ nil)
      × (get key (abandon key token s).1.entries ≡ none)
      × ((finalize now key token none ttl s).0 ≡ nil)
      × (get key (finalize now key token none ttl s).1.entries ≡ none)
  unfolding abandon finalize record_outcome
  release_frees =
      ground (arith, ==_iff token [], ==_refl token, ==_refl key, get-delete key key s.entries)

-- In a well-formed store a recorded outcome is final: a late Finalize of any claim, with or without
-- a result, is told that it was superseded, a late Abandon does nothing, and neither changes the
-- store.
pub recorded_is_final :
    (now : Time) (key token : Str) (result : Option SendResult) (ttl : Duration) (s : MemoryStore)
    (e : Entry)
    → IsWellFormed s
    → get key s.entries ≡ some e
    → e.result ≢ none
    → (finalize now key token result ttl s ≡ (err_claim_superseded, s))
      × (abandon key token s ≡ (nil, s))
unfolding finalize abandon
recorded_is_final now key token result ttl s e wf found recorded =
    ground (arith, wf.each key e found, ==_iff token [], ==_iff e.token token)
