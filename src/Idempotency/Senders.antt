-- ===== src/Idempotency/Senders.antt =====
-- idempotency.go: concurrent calls of Send on one MemoryIdempotencyStore, interleaved. A call takes
-- the store's lock twice, in Reserve and in Finalize or Abandon; between the two it is inside the
-- provider. It reads the clock before it takes the lock.
pub mod Exclusion
pub mod Progress
use provider_kit.Base.{
  ℕ, Str, Bool, true, false, Option, none, some, [], ◌∷◌, ◌≡◌, ◌≢◌, ◌+ℤ◌, ◌≤ℤ◌, nat_eq,
  if◌then◌else◌,
}
use provider_kit.Errors.{Error, nil}
use provider_kit.SendResult.{SendResult, Time}
use provider_kit.Provider.{Duration, Reply}
use provider_kit.Idempotency.Token.{new_claim_token}
use provider_kit.Idempotency.Store.{MemoryStore, reserve, remove_expired, clone_send_result}
use provider_kit.Idempotency.Store.Calls.{Call, abandons, finalizes, sets, expires, run}

-- Where a call of Send stands: outside, or inside the provider with a claim and its deadline.
pub data Phase : Type 0 where
  idle : Phase
  sending : (key token : Str) (deadline : Time) → Phase

pub record System : Type 0 where
  pub store : MemoryStore
  pub now : Time
  pub phase : ℕ → Phase

abbrev pub update : ℕ → Phase → (ℕ → Phase) → ℕ → Phase
update i p phase j = if nat_eq i j then p else phase j

-- What `claimed` does with the answer of Reserve: only a token leads to the provider.
unfoldable pub entered : Str × Option SendResult × Error → Str → Time → Phase
entered ([], existing, err) key deadline = idle
entered (token, existing, nil) key deadline = sending key token deadline
entered (token, existing, err) key deadline = idle

-- The call of the store by which `settle` ends a claim.
unfoldable pub settling : Reply → Time → Str → Str → Duration → Call
settling (none, nil) now key token ttl = finalizes now key token (clone_send_result none) ttl
settling (some r, err) now key token ttl = finalizes now key token (clone_send_result (some r)) ttl
settling (none, err) now key token ttl = abandons key token

-- No call that is inside the provider has this token: `rand.Read` does not repeat itself.
abbrev pub IsFresh : System → Str → Type 0
IsFresh s token =
    (j : ℕ) (key t : Str) (deadline : Time) → s.phase j ≡ sending key t deadline → token ≢ t

pub data Step : System → System → Type 0 where
  pass : (s : System) (t : Time) → s.now ≤ℤ t → Step s (record s { now = t })
  enter :
      (s : System) (i : ℕ) (drawn : Str × Error) (read : Time) (key : Str) (ttl : Duration)
      → s.phase i ≡ idle
      → read ≤ℤ s.now
      → IsFresh s (new_claim_token drawn).0
      → Step s (record s {
        store = (reserve drawn read key ttl s.store).1;
        phase = update i (entered (reserve drawn read key ttl s.store).0 key (read +ℤ ttl)) s.phase;
      })
  leave :
      (s : System) (i : ℕ) (key token : Str) (deadline : Time) (reply : Reply) (read : Time)
      (ttl : Duration)
      → s.phase i ≡ sending key token deadline
      → Step s (record s {
        store = run (settling reply read key token ttl) s.store;
        phase = update i idle s.phase;
      })
  -- The cleanup goroutine.
  clean :
      (s : System) (read : Time)
      → read ≤ℤ s.now
      → Step s (record s { store = run (expires read) s.store })
  -- Set with a nil result, by anybody.
  clear :
      (s : System) (read : Time) (key : Str) (ttl : Duration)
      → Step s (record s { store = run (sets read key none ttl) s.store })

pub data Reach (s : System) : System → Type 0 where
  here : Reach s s
  next : {t u : System} → Reach s t → Step t u → Reach s u
