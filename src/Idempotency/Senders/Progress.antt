-- ===== src/Idempotency/Senders/Progress.antt =====
-- idempotency.go: no claim blocks its key for ever.
use provider_kit.Base.{
  Str, Bool-cases, none, some, Option, [], ◌∷◌, ◌≡◌, ◌≢◌, refl, inl, inr, ℕ, arith, ◌+ℤ◌, ◌≤ℤ◌,
}
use provider_kit.GoMap.{get}
use provider_kit.Errors.{Error, nil}
use provider_kit.SendResult.{Time}
use provider_kit.Provider.{Duration, before}
use provider_kit.Idempotency.Store.{Entry, live, reserve}
use provider_kit.Idempotency.Store.Fencing.{Holds}
use provider_kit.Idempotency.Store.Recorded.{Draws, reserve_free}
use provider_kit.Idempotency.Senders.{
  idle, sending, System, update, entered, IsFresh, Step, pass, enter,
}

-- From some instant on nothing holds the key.
dies : (now : Time) (o : Option Entry) → (t : Time) × (now ≤ℤ t) × (live t o ≡ none)
dies now none = (now, omega arith, refl)
dies now (some e) = elim (Bool-cases (before now e.expires_at)) [
  | inl alive ↦ (e.expires_at, ground arith, ground arith)
  | inr over ↦ (now, omega arith, ground (arith, over))
]

entered_granted :
    (token key : Str) (deadline : Time)
    → token ≢ []
    → entered (token, none, nil) key deadline ≡ sending key token deadline
unfolding entered
entered_granted [] key deadline has_token = absurd (has_token refl)
entered_granted (b ∷ token) key deadline has_token = refl

-- The system after the call `i` of Send has gone through Reserve.
abbrev pub after_reserve : System → ℕ → Str × Error → Str → Duration → System
after_reserve s i drawn key ttl = record s {
  store = (reserve drawn s.now key ttl s.store).1;
  phase = update i (entered (reserve drawn s.now key ttl s.store).0 key (s.now +ℤ ttl)) s.phase;
}

-- What `progress` promises: an instant at which the call gets through.
pub record Progress (s : System) (i : ℕ) (drawn : Str × Error) (key token : Str) (ttl : Duration)
    : Type 0 where
  pub at : Time
  pub waits : Step s (record s { now = at })
  pub enters : Step (record s { now = at }) (after_reserve (record s { now = at }) i drawn key ttl)
  pub inside :
      (after_reserve (record s { now = at }) i drawn key ttl).phase i
      ≡ sending key token (at +ℤ ttl)
  pub holds :
      Holds (after_reserve (record s { now = at }) i drawn key ttl).store key token (at +ℤ ttl)

-- Whatever the state of the store and of the other calls of Send, also if one that has claimed the
-- key never comes back from its provider: time can pass to an instant at which a call that is
-- outside, and draws a fresh token, gets its claim on the key from Reserve and goes on to its
-- provider. No other call has to take a step for that.
pub progress :
    (s : System) (i : ℕ) (drawn : Str × Error) (key token : Str) (ttl : Duration)
    → s.phase i ≡ idle
    → Draws drawn token
    → token ≢ []
    → IsFresh s token
    → Progress s i drawn key token ttl
progress s i drawn key token ttl outside draws has_token fresh =
    let (t, later, free) = dies s.now (get key s.store.entries) in
    let (granted, held, others) = reserve_free drawn token t key ttl s.store draws free in
    record {
      at = t;
      waits = pass s t later;
      enters =
          enter (record s { now = t }) i drawn t key ttl outside (omega arith) (rw draws fresh);
      inside = rw (granted, entered_granted token key (t +ℤ ttl) has_token) (ground arith);
      holds = held;
    }
