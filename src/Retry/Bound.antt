-- ===== src/Retry/Bound.antt =====
-- retry.go: how many rounds a call of RetryProvider.Send makes, and how each of them ends.
use provider_kit.Base.{
  ℕ, zero, suc, ◌+◌, ◌-◌, ◌≤◌, ◌<◌, ◌≡◌, ◌≢◌, refl, subst, ◌⊎◌, inl, inr, arith, Bool, true, false,
  Option, none, some, pos, max_int, inc_int,
}
use native.Mathlib.Nat.{add-zero}
use provider_kit.Errors.{nil}
use provider_kit.SendResult.{SendResult}
use provider_kit.Message.{Message}
use provider_kit.Provider.{Context, ctx_err, Reply, Provider, Runtime}
use provider_kit.Provider.Actions.{Outcome, returned, panicked}
use provider_kit.Retry.{
  Float64, RetryConfig, success, give_up, retry, crash, judge, calculate_delay, pause, give_in,
  attempts, send_provider,
}
use provider_kit.Retry.Delay.{IsTransient, is_retryable_iff}
use provider_kit.Retry.Rounds.{
  Retries, End, exhausted, canceled, stopped, crashed, Ends, send_provider-Ends,
}

-- A reply that asks for another attempt: a result that is not OK without an error, or an error that is
-- no ProviderError or has one of the reasons that the configuration lists.
abbrev pub IsFailure : {F : Type 0} → RetryConfig F → Reply → Type 0
IsFailure c reply =
    ((r : SendResult) × (reply ≡ (some r, nil)) × (r.ok ≡ false))
    ⊎ ((reply.1 ≢ nil) × IsTransient c.retryable_reasons reply.1)

-- A reply that is final: an OK result without an error, or another error.
abbrev pub IsAnswer : {F : Type 0} → RetryConfig F → Reply → Type 0
IsAnswer c reply =
    ((r : SendResult) × (reply ≡ (some r, nil)) × (r.ok ≡ true))
    ⊎ ((reply.1 ≢ nil) × (¬ IsTransient c.retryable_reasons reply.1))

module _ {F : Type 0} (c : RetryConfig F) where
  judge-retry : (reply : Reply) → judge c reply ≡ retry → IsFailure c reply
  unfolding judge
  judge-retry (none, nil) h = cc h
  judge-retry (some r, nil) h = inl (r, refl, ground arith)
  judge-retry (result, err) h = inr ((is_retryable_iff c err).0 (ground arith))

  judge-success : (reply : Reply) → judge c reply ≡ success → IsAnswer c reply
  unfolding judge
  judge-success (none, nil) h = cc h
  judge-success (some r, nil) h = inl (r, refl, ground arith)
  judge-success (result, err) h = absurd (ground arith)

  judge-give_up : (reply : Reply) → judge c reply ≡ give_up → IsAnswer c reply
  unfolding judge
  judge-give_up (none, nil) h = cc h
  judge-give_up (some r, nil) h = absurd (ground arith)
  judge-give_up (result, err) h = inr (
    (λ e. cc e),
    λ transient. absurd (ground (arith, (is_retryable_iff c err).1 ((λ e. cc e), transient))),
  )

  judge-crash : (reply : Reply) → judge c reply ≡ crash → reply ≡ (none, nil)
  unfolding judge
  judge-crash (none, nil) h = refl
  judge-crash (some r, nil) h = absurd (ground arith)
  judge-crash (result, err) h = absurd (ground arith)

module _ {F W : Type 0} (float : Float64 F) (rt : Runtime W) (c : RetryConfig F) (ctx : Context)
    (p : Provider W) (msg : Option Message) where
  -- The wait before an attempt: none before the first; the delay after the attempt before, which
  -- fires, or not if the context is done first.
  abbrev pub Waits : ℕ → Bool → W → W → Type 0
  Waits zero fired w w₁ = (fired ≡ true) × (w ≡ w₁)
  Waits (suc n) fired w w₁ = rt.elapses ctx (calculate_delay float c (pos n)) w ≡ (fired, w₁)

  -- `n` attempts from `attempt` on, each after its wait, that all fail.
  abbrev pub Tries : ℕ → ℕ → W → Reply → W → Reply → Type 0
  Tries zero attempt w last w' last' = (w ≡ w') × (last ≡ last')
  Tries (suc n) attempt w last w' last' =
      (w₁ : W) × (w₂ : W) × (reply : Reply) × Waits attempt true w w₁
      × (p.send ctx msg w₁ ≡ (returned reply, w₂))
      × IsFailure c reply
      × Tries n (suc attempt) w₂ reply w' last'

  -- The end, where `left` more attempts are allowed: none is left; the context is done during the
  -- wait; an answer; or a panic, of the provider or on a nil result without an error.
  pub data Stop (attempt left : ℕ) (w : W) (last : Reply) (out : Outcome Reply × W) : Type 0 where
    spent : left ≡ 0 → out ≡ (returned last, w) → Stop attempt left w last out
    cut_short :
        (w₁ : W)
        → 0 < left
        → Waits attempt false w w₁
        → out ≡ (returned (none, ctx_err ctx (rt.now w₁).0), (rt.now w₁).1)
        → Stop attempt left w last out
    answered :
        (w₁ w₂ : W) (reply : Reply)
        → 0 < left
        → Waits attempt true w w₁
        → p.send ctx msg w₁ ≡ (returned reply, w₂)
        → IsAnswer c reply
        → out ≡ (returned reply, w₂)
        → Stop attempt left w last out
    broken :
        (w₁ w₂ : W)
        → 0 < left
        → Waits attempt true w w₁
        → (p.send ctx msg w₁ ≡ (panicked, w₂)) ⊎ (p.send ctx msg w₁ ≡ (returned (none, nil), w₂))
        → out ≡ (panicked, w₂)
        → Stop attempt left w last out

  pause-Waits :
      (attempt : ℕ) (fired : Bool) (w w₁ : W)
      → pause float rt c ctx attempt w ≡ (returned fired, w₁)
      → Waits attempt fired w w₁
  unfolding pause
  pause-Waits zero fired w w₁ h = (cc h, cc h)
  pause-Waits (suc n) fired w w₁ h = cc h

  Retries-Tries :
      (n attempt : ℕ) (w w' : W) (last last' : Reply)
      → Retries float rt c ctx p msg n attempt w last w' last'
      → Tries n attempt w last w' last'
  Retries-Tries zero attempt w w' last last' same = same
  Retries-Tries (suc n) attempt w w' last last' (w₁, w₂, reply, waited, sent, judged, rest) = (
    w₁,
    w₂,
    reply,
    pause-Waits attempt true w w₁ waited,
    sent,
    judge-retry c reply judged,
    Retries-Tries n (suc attempt) w₂ w' reply last' rest,
  )

  End-Stop :
      (attempt left : ℕ) (w : W) (last : Reply) (out : Outcome Reply × W)
      → End float rt c ctx p msg attempt left w last out
      → Stop attempt left w last out
  unfolding give_in
  End-Stop attempt left w last out (exhausted none_left is) = spent none_left is
  End-Stop attempt left w last out (canceled w₁ more waited is) =
      cut_short w₁ more (pause-Waits attempt false w w₁ waited) is
  End-Stop attempt left w last out (stopped w₁ w₂ reply more waited sent (inl judged) is) =
      answered w₁ w₂ reply more (pause-Waits attempt true w w₁ waited) sent
        (judge-success c reply judged) is
  End-Stop attempt left w last out (stopped w₁ w₂ reply more waited sent (inr judged) is) =
      answered w₁ w₂ reply more (pause-Waits attempt true w w₁ waited) sent
        (judge-give_up c reply judged) is
  End-Stop attempt left w last out (crashed w₁ w₂ more waited (inl sent) is) =
      broken w₁ w₂ more (pause-Waits attempt true w w₁ waited) (inl sent) is
  End-Stop attempt left w last out (crashed w₁ w₂ more waited (inr (reply, sent, judged)) is) =
      broken w₁ w₂ more (pause-Waits attempt true w w₁ waited)
        (inr (rw (judge-crash c reply judged) at sent)) is

  -- A run of Send for a given MaxRetries: attempts that fail, and an end.
  pub record Bounded (max_retries : ℕ) (w : W) (out : Outcome Reply × W) : Type 0 where
    pub tries : ℕ
    pub then_world : W
    pub then_reply : Reply
    pub bounded : tries ≤ max_retries + 1
    pub tried : Tries tries 0 w (none, nil) then_world then_reply
    pub stops : Stop tries (max_retries + 1 - tries) then_world then_reply out

  attempts_small : (m : ℕ) → c.max_retries ≡ pos m → m < max_int → attempts c ≡ m + 1
  unfolding attempts inc_int
  attempts_small m is small = rw is (ground arith)

  -- Every run of Send, for a MaxRetries from 0 to 2 ^ 63 - 2, comes to an end: it makes some attempts
  -- that fail, at most MaxRetries + 1 of them, each but the first after the wait that CalculateDelay
  -- gives, and then one of four things happens. MaxRetries + 1 attempts were made, and the last reply
  -- is returned. The context is done during a wait, and its error is returned. The next reply is an OK
  -- result without an error, or an error that is not to be retried, and is returned. Or Send panics,
  -- because the provider does or returns neither a result nor an error. A failure is a result that is
  -- not OK without an error, or an error that is no ProviderError or has a listed reason.
  pub send_provider-Bounded :
      (m : ℕ) (w : W)
      → c.max_retries ≡ pos m
      → m < max_int
      → Bounded m w (send_provider float rt c ctx p msg w)
  send_provider-Bounded m w is small =
      let (n, w', last, bound, rounds, end) =
        subst
          (λ (k : ℕ).
            Ends float rt c ctx p msg k 0 w (none, nil) (send_provider float rt c ctx p msg w))
          (attempts_small m is small) (send_provider-Ends float rt c ctx p msg w) in
      record {
        tries = n;
        then_world = w';
        then_reply = last;
        bounded = bound;
        tried = Retries-Tries n 0 w w' (none, nil) last rounds;
        stops = End-Stop n (m + 1 - n) w' last _ (rw (add-zero n) at end);
      }
