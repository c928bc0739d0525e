-- ===== src/Retry/Outcomes.antt =====
-- retry.go: what RetryProvider.Send returns.
use provider_kit.Base.{
  ℕ, zero, suc, ◌+◌, ◌≤◌, ◌-◌, ◌≡◌, ◌≢◌, refl, ◌⊎◌, inl, inr, arith, true, false, Option, none,
  some, sym, ◌∙◌, subst, pos,
}
use native.Mathlib.Nat.{add-zero}
use provider_kit.Errors.{nil}
use provider_kit.SendResult.{SendResult}
use provider_kit.Message.{Message}
use provider_kit.Provider.{Context, ctx_err, Duration, Reply, Provider, Runtime}
use provider_kit.Provider.Actions.{returned}
use provider_kit.Retry.{
  Float64, RetryConfig, success, give_up, retry, judge, pause, calculate_delay, give_in, proceed,
  provider_loop, attempts, send_provider,
}
use provider_kit.Retry.Rounds.{
  Retries, End, exhausted, canceled, stopped, crashed, Ends, send_provider-Ends, send-after_rounds,
}

-- The wait is cut short only once the context is done: from then on `ctx.Err()` is not nil.
abbrev pub IsPrompt : {W : Type 0} → Runtime W → Type 0
IsPrompt {W} rt =
    (ctx : Context) (d : Duration) (w : W)
    → (rt.elapses ctx d w).0 ≡ false
    → ctx_err ctx (rt.now (rt.elapses ctx d w).1).0 ≢ nil

-- A reply that ends the loop.
abbrev pub IsFinal : {F : Type 0} → RetryConfig F → Reply → Type 0
IsFinal c reply = (judge c reply ≡ success) ⊎ (judge c reply ≡ give_up)

-- A nil error counts as final only with a result that is OK.
judge-final_nil :
    {F : Type 0} (c : RetryConfig F) (result : Option SendResult)
    → IsFinal c (result, nil)
    → (r : SendResult) × (result ≡ some r) × (r.ok ≡ true)
unfolding judge
judge-final_nil c none h = ground arith
judge-final_nil c (some r) h = (r, refl, ground arith)

judge-retry_none : {F : Type 0} (c : RetryConfig F) → judge c (none, nil) ≢ retry
unfolding judge
judge-retry_none c = cc

module _ {F W : Type 0} (float : Float64 F) (rt : Runtime W) (c : RetryConfig F) (ctx : Context)
    (p : Provider W) (msg : Option Message) where
  module _ (n left : ℕ) (w w' : W) (last : Reply)
      (retried : Retries float rt c ctx p msg n 0 w (none, nil) w' last) where
    -- After n rounds that were retried, n at most MaxRetries, a success or an error that is not
    -- retried is returned at once: the world is the one that this reply left, so no further call
    -- is made.
    pub send_provider_stops :
        (w₁ w₂ : W) (reply : Reply)
        → attempts c ≡ n + suc left
        → pause float rt c ctx n w' ≡ (returned true, w₁)
        → p.send ctx msg w₁ ≡ (returned reply, w₂)
        → IsFinal c reply
        → send_provider float rt c ctx p msg w ≡ (returned reply, w₂)
    unfolding provider_loop proceed
    send_provider_stops w₁ w₂ reply allowed waited sent final =
        send-after_rounds float rt c ctx p msg n (suc left) w w' last allowed retried
        ∙ rw (add-zero n, waited, sent) (ends reply final)
      where
        ends :
            (r : Reply)
            → IsFinal c r
            → proceed float rt c ctx
                (judge c r)
                r
                (provider_loop float rt c ctx p msg left (suc n) r)
                w₂
              ≡ (returned r, w₂)
        ends r (inl e) = rw e
        ends r (inr e) = rw e

  -- If every attempt fails in a way that is retried, Send returns the last reply after exactly
  -- MaxRetries + 1 calls.
  pub send_provider_exhausted :
      (w w' : W) (last : Reply)
      → Retries float rt c ctx p msg (attempts c) 0 w (none, nil) w' last
      → send_provider float rt c ctx p msg w ≡ (returned last, w')
  unfolding provider_loop
  send_provider_exhausted w w' last retried =
      send-after_rounds float rt c ctx p msg (attempts c) 0 w w' last (sym (add-zero (attempts c)))
        retried

  pause-canceled :
      IsPrompt rt
      → (attempt : ℕ) (w w₁ : W) → pause float rt c ctx attempt w ≡ (returned false, w₁)
      → ctx_err ctx (rt.now w₁).0 ≢ nil
  unfolding pause
  pause-canceled prompt zero w w₁ h = cc
  pause-canceled prompt (suc n) w w₁ h =
      subst (λ v. ctx_err ctx (rt.now v).0 ≢ nil) (cc h)
        (prompt ctx (calculate_delay float c (pos n)) w (cc h))

  nil-End :
      (prompt : IsPrompt rt) (n left : ℕ) (w w' : W) (last : Reply) (result : Option SendResult)
      → End float rt c ctx p msg n left w last (returned (result, nil), w')
      → ((left ≡ 0) × (last ≡ (result, nil)) × (w ≡ w'))
        ⊎ ((r : SendResult) × (result ≡ some r) × (r.ok ≡ true))
  unfolding give_in
  nil-End prompt n left w w' last result (exhausted none_left out) = inl (none_left, cc, cc)
  nil-End prompt n left w w' last result (canceled w₁ more waited out) =
      absurd (pause-canceled prompt n w w₁ waited (cc out))
  nil-End prompt n left w w' last result (stopped w₁ w₂ reply more waited sent final out) =
      inr (judge-final_nil c result (subst (IsFinal c) (cc out) final))
  nil-End prompt n left w w' last result (crashed w₁ w₂ more waited why out) = cc

  -- Send returns a nil error only with a result that is OK, or after all MaxRetries + 1 attempts
  -- were made and retried; then it returns the last reply. (A wait is cut short only by a context
  -- that has an error.)
  pub send_provider_nil :
      (prompt : IsPrompt rt) (w w' : W) (result : Option SendResult)
      → send_provider float rt c ctx p msg w ≡ (returned (result, nil), w')
      → Retries float rt c ctx p msg (attempts c) 0 w (none, nil) w' (result, nil)
        ⊎ ((r : SendResult) × (result ≡ some r) × (r.ok ≡ true))
  send_provider_nil prompt w w' result h =
      let (n, w₁, last, bound, rounds, end) =
        subst (Ends float rt c ctx p msg (attempts c) 0 w (none, nil)) h
          (send_provider-Ends float rt c ctx p msg w) in
      all_or_ok n w₁ last bound rounds
        (nil-End prompt (n + 0) (attempts c - n) w₁ w' last result end)
    where
      all_or_ok :
          (n : ℕ) (w₁ : W) (last : Reply)
          → n ≤ attempts c
          → Retries float rt c ctx p msg n 0 w (none, nil) w₁ last
          → ((attempts c - n ≡ 0) × (last ≡ (result, nil)) × (w₁ ≡ w'))
            ⊎ ((r : SendResult) × (result ≡ some r) × (r.ok ≡ true))
          → Retries float rt c ctx p msg (attempts c) 0 w (none, nil) w' (result, nil)
            ⊎ ((r : SendResult) × (result ≡ some r) × (r.ok ≡ true))
      all_or_ok n w₁ last bound rounds (inl (spent, same_last, same_w)) =
          let all : n ≡ attempts c = omega arith in inl (rw (← all, ← same_last, ← same_w) rounds)
      all_or_ok n w₁ last bound rounds (inr ok) = inr ok
