-- ===== src/Idempotency/Senders/Exclusion.antt =====
-- idempotency.go: two sends for one idempotency key are never inside the provider at a time, unless
-- one of them has overrun its claim's TTL.
use provider_kit.Base.{
  ℕ, Str, none, some, [], ◌∷◌, ◌≡◌, ◌≢◌, refl, sym, ◌∙◌, ◌⊎◌, inl, inr, arith, ◌+ℤ◌, ◌≤ℤ◌, ◌<ℤ◌,
  nat_eq, nat_eq_iff, Bool-cases,
}
use provider_kit.Errors.{Error, nil}
use provider_kit.SendResult.{Time}
use provider_kit.Provider.{Duration, Reply}
use provider_kit.Idempotency.Token.{new_claim_token}
use provider_kit.Idempotency.Store.{MemoryStore, claim, claim_entry, reserve}
use provider_kit.Idempotency.Store.Calls.{Call, reserves, sets, expires, run}
use provider_kit.Idempotency.Store.Fencing.{Holds, claim_of, IsFenced, run-Holds}
use provider_kit.Idempotency.Senders.{
  Phase, idle, sending, System, update, entered, settling, IsFresh, Step, pass, enter, leave, clean,
  clear, Reach, here, next,
}
use provider_kit.GoMap.{get-put}
use provider_kit.Base.{==_refl}

pub record IsSafe (s : System) : Type 0 where
  -- A send whose claim has not expired still holds its key.
  pub held :
      (i : ℕ) (key token : Str) (deadline : Time)
      → s.phase i ≡ sending key token deadline
      → s.now <ℤ deadline
      → Holds s.store key token deadline
  -- No two sends share a token.
  pub distinct :
      (i j : ℕ) (key key' token : Str) (deadline deadline' : Time)
      → s.phase i ≡ sending key token deadline
      → s.phase j ≡ sending key' token deadline'
      → i ≡ j

-- A claim that Reserve granted is the entry of its key.
entered-claim :
    (drawn : Str × Error) (read : Time) (key : Str) (ttl : Duration) (s : MemoryStore)
    (k token : Str) (deadline : Time)
    → entered (claim drawn read key ttl s).0 key (read +ℤ ttl) ≡ sending k token deadline
    → Holds (claim drawn read key ttl s).1 k token deadline × (token ≡ drawn.0)
unfolding claim entered claim_entry
entered-claim ([], nil) read key ttl s k token deadline h = ground arith
entered-claim (b ∷ t, nil) read key ttl s k token deadline h =
    ground (arith, ==_refl key, get-put key key (claim_of (b ∷ t) (read +ℤ ttl)) s.entries)
entered-claim (t, err) read key ttl s k token deadline h = ground arith

entered-reserve :
    (drawn : Str × Error) (read : Time) (key : Str) (ttl : Duration) (s : MemoryStore)
    (k token : Str) (deadline : Time)
    → entered (reserve drawn read key ttl s).0 key (read +ℤ ttl) ≡ sending k token deadline
    → Holds (reserve drawn read key ttl s).1 k token deadline × (token ≡ (new_claim_token drawn).0)
unfolding reserve
entered-reserve drawn read key ttl s k token deadline h =
    entered-claim (new_claim_token drawn) read key ttl s k token deadline h

settling-IsFenced :
    (reply : Reply) (read : Time) (k t : Str) (ttl : Duration) (key token : Str) (deadline : Time)
    → t ≢ token
    → IsFenced key token deadline (settling reply read k t ttl)
unfolding settling
settling-IsFenced (none, nil) read k t ttl key token deadline h = inr h
settling-IsFenced (some r, err) read k t ttl key token deadline h = inr h
settling-IsFenced (none, err) read k t ttl key token deadline h = inr h

module _ (i : ℕ) (p : Phase) (phase : ℕ → Phase) where
  update_self : (j : ℕ) → i ≡ j → update i p phase j ≡ p
  update_self j e = ground (arith, nat_eq_iff i j)

  update_ne : (j : ℕ) → i ≢ j → update i p phase j ≡ phase j
  update_ne j ne = ground (arith, nat_eq_iff i j)

nat_cases : (i j : ℕ) → (i ≡ j) ⊎ (i ≢ j)
nat_cases i j = elim (Bool-cases (nat_eq i j)) [
  | inl e ↦ inl ((nat_eq_iff i j).0 e)
  | inr e ↦ inr (λ h. ground (arith, nat_eq_iff i j))
]

-- A phase after an update that is a send is the new one, or an old one of another sender.
updated :
    (i : ℕ) (p : Phase) (phase : ℕ → Phase) (j : ℕ) (key token : Str) (deadline : Time)
    → update i p phase j ≡ sending key token deadline
    → ((i ≡ j) × (p ≡ sending key token deadline))
      ⊎ ((i ≢ j) × (phase j ≡ sending key token deadline))
updated i p phase j key token deadline h = elim (nat_cases i j) [
  | inl e ↦ inl (e, sym (update_self i p phase j e) ∙ h)
  | inr ne ↦ inr (ne, sym (update_ne i p phase j ne) ∙ h)
]

module _ (s : System) (safe : IsSafe s) where
  -- A call that is fenced from every open claim keeps the claims.
  keep-held :
      (call : Call) (j : ℕ) (key token : Str) (deadline : Time)
      → s.phase j ≡ sending key token deadline
      → s.now <ℤ deadline
      → IsFenced key token deadline call
      → Holds (run call s.store) key token deadline
  keep-held call j key token deadline h t f =
      run-Holds call key token deadline s.store f (safe.held j key token deadline h t)

  leave-IsSafe :
      (i : ℕ) (key token : Str) (deadline : Time) (reply : Reply) (read : Time) (ttl : Duration)
      → s.phase i ≡ sending key token deadline
      → IsSafe (record s {
        store = run (settling reply read key token ttl) s.store;
        phase = update i idle s.phase;
      })
  leave-IsSafe i key token deadline reply read ttl inside = record {
    held = λ j k t d h before. elim (updated i idle s.phase j k t d h) [
      | inl (e, p) ↦ cc
      | inr (ne, old) ↦ keep-held (settling reply read key token ttl) j k t d old before (
          settling-IsFenced reply read key token ttl k t d
            (λ same. ne (safe.distinct i j key k token deadline d inside (rw same old))))
    ];
    distinct = λ j j' k k' t d d' h h'. elim (updated i idle s.phase j k t d h) [
      | inl (e, p) ↦ cc
      | inr (ne, old) ↦ elim (updated i idle s.phase j' k' t d' h') [
        | inl (e, p) ↦ cc
        | inr (ne', old') ↦ safe.distinct j j' k k' t d d' old old'
      ]
    ];
  }

  enter-IsSafe :
      (i : ℕ) (drawn : Str × Error) (read : Time) (key : Str) (ttl : Duration)
      → read ≤ℤ s.now
      → IsFresh s (new_claim_token drawn).0
      → IsSafe (record s {
        store = (reserve drawn read key ttl s.store).1;
        phase = update i (entered (reserve drawn read key ttl s.store).0 key (read +ℤ ttl)) s.phase;
      })
  unfolding run
  enter-IsSafe i drawn read key ttl past fresh = record {
    held = λ j k t d h before. elim (updated i _ s.phase j k t d h) [
      | inl (e, p) ↦ (entered-reserve drawn read key ttl s.store k t d p).0
      | inr (ne, old) ↦
          keep-held (reserves drawn read key ttl) j k t d old before (inr (omega arith))
    ];
    distinct = λ j j' k k' t d d' h h'. elim (updated i _ s.phase j k t d h) [
      | inl (e, p) ↦ elim (updated i _ s.phase j' k' t d' h') [
        | inl (e', p') ↦ sym e ∙ e'
        | inr (ne', old') ↦
            absurd
              (fresh j' k' t d' old' (sym (entered-reserve drawn read key ttl s.store k t d p).1))
      ]
      | inr (ne, old) ↦ elim (updated i _ s.phase j' k' t d' h') [
        | inl (e', p') ↦
            absurd
              (fresh j k t d old (sym (entered-reserve drawn read key ttl s.store k' t d' p').1))
        | inr (ne', old') ↦ safe.distinct j j' k k' t d d' old old'
      ]
    ];
  }

Step-IsSafe : {s u : System} → Step s u → IsSafe s → IsSafe u
Step-IsSafe (pass s t later) safe = record {
  held = λ j k token d h before. safe.held j k token d h (omega arith);
  distinct = safe.distinct;
}
Step-IsSafe (enter s i drawn read key ttl out past fresh) safe =
    enter-IsSafe s safe i drawn read key ttl past fresh
Step-IsSafe (leave s i key token deadline reply read ttl inside) safe =
    leave-IsSafe s safe i key token deadline reply read ttl inside
Step-IsSafe (clean s read past) safe = record {
  held = λ j k t d h before. keep-held s safe (expires read) j k t d h before (omega arith);
  distinct = safe.distinct;
}
Step-IsSafe (clear s read key ttl) safe = record {
  held = λ j k t d h before. keep-held s safe (sets read key none ttl) j k t d h before (inr refl);
  distinct = safe.distinct;
}

-- Every system that is reached from a safe one is safe.
pub Reach-IsSafe : {s u : System} → IsSafe s → Reach s u → IsSafe u
Reach-IsSafe safe here = safe
Reach-IsSafe safe (next r st) = Step-IsSafe st (Reach-IsSafe safe r)

-- Before any send.
abbrev pub IsQuiet : System → Type 0
IsQuiet s = (i : ℕ) → s.phase i ≡ idle

IsSafe-quiet : (s : System) → IsQuiet s → IsSafe s
IsSafe-quiet s quiet = record {
  held = λ i key token deadline h before. cc (quiet i);
  distinct = λ i j key key' token d d' h h'. cc (quiet i);
}

-- However Reserve, Finalize, Abandon, Set with a nil result, the cleanup and the passing of time
-- are interleaved, from a store with any contents and no send under way: two sends that are inside
-- the provider for the same key, each before the deadline of its claim, are one and the same.
-- (The tokens of the sends under way are not drawn again; nobody calls Delete, or Set with a
-- result.)
pub sending_exclusive :
    (s u : System)
    → IsQuiet s
    → Reach s u
    → (i j : ℕ) (key token token' : Str) (deadline deadline' : Time)
    → u.phase i ≡ sending key token deadline
    → u.phase j ≡ sending key token' deadline'
    → u.now <ℤ deadline
    → u.now <ℤ deadline'
    → i ≡ j
sending_exclusive s u quiet reach i j key token token' deadline deadline' h h' before before' =
    let safe = Reach-IsSafe (IsSafe-quiet s quiet) reach in
    let one : Holds u.store key token deadline = safe.held i key token deadline h before in
    let other : Holds u.store key token' deadline' = safe.held j key token' deadline' h' before' in
    let same : token' ≡ token = ground arith in
    safe.distinct i j key key token deadline deadline' h (rw (← same) h')
