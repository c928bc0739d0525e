-- ===== src/Retry/Rounds.antt =====
-- retry.go: the rounds of the retry loop.
use provider_kit.Base.{
  ℕ, zero, suc, ◌+◌, ◌≤◌, ◌<◌, ◌≡◌, refl, ◌⊎◌, inl, inr, arith, Bool, true, false, Option, none,
  ◌-◌, pos,
}
use native.Mathlib.Nat.{zero-add, suc-add, add-suc, sub-zero, suc-sub-suc}
use provider_kit.Errors.{nil}
use provider_kit.Message.{Message}
use provider_kit.Provider.{Context, Reply, Provider, Runtime}
use provider_kit.Provider.Actions.{Outcome, returned, panicked}
use provider_kit.Retry.{
  Float64, RetryConfig, Verdict, success, give_up, retry, crash, judge, calculate_delay, pause,
  give_in, proceed, provider_loop, attempts, send_provider,
}

module _ {F W : Type 0} (float : Float64 F) (rt : Runtime W) (c : RetryConfig F) (ctx : Context)
    (p : Provider W) (msg : Option Message) where
  -- `n` rounds from `attempt` on that all wait, send, and get a reply that is retried: they lead
  -- from one world and last reply to another.
  abbrev pub Retries : ℕ → ℕ → W → Reply → W → Reply → Type 0
  Retries zero attempt w last w' last' = (w ≡ w') × (last ≡ last')
  Retries (suc n) attempt w last w' last' =
      (w₁ : W) × (w₂ : W) × (reply : Reply) × (pause float rt c ctx attempt w ≡ (returned true, w₁))
      × (p.send ctx msg w₁ ≡ (returned reply, w₂))
      × (judge c reply ≡ retry)
      × Retries n (suc attempt) w₂ reply w' last'

  -- How the loop can end once `left` more attempts are allowed.
  pub data End (attempt left : ℕ) (w : W) (last : Reply) (out : Outcome Reply × W) : Type 0 where
    exhausted : left ≡ 0 → out ≡ (returned last, w) → End attempt left w last out
    canceled :
        (w₁ : W)
        → 0 < left
        → pause float rt c ctx attempt w ≡ (returned false, w₁)
        → out ≡ give_in float rt c ctx w₁
        → End attempt left w last out
    stopped :
        (w₁ w₂ : W) (reply : Reply)
        → 0 < left
        → pause float rt c ctx attempt w ≡ (returned true, w₁)
        → p.send ctx msg w₁ ≡ (returned reply, w₂)
        → (judge c reply ≡ success) ⊎ (judge c reply ≡ give_up)
        → out ≡ (returned reply, w₂)
        → End attempt left w last out
    crashed :
        (w₁ w₂ : W)
        → 0 < left
        → pause float rt c ctx attempt w ≡ (returned true, w₁)
        → (p.send ctx msg w₁ ≡ (panicked, w₂))
          ⊎ ((reply : Reply) × (p.send ctx msg w₁ ≡ (returned reply, w₂)) × (judge c reply ≡ crash))
        → out ≡ (panicked, w₂)
        → End attempt left w last out

  -- One round that is retried.
  loop_again :
      (left attempt : ℕ) (w w₁ w₂ : W) (last reply : Reply)
      → pause float rt c ctx attempt w ≡ (returned true, w₁)
      → p.send ctx msg w₁ ≡ (returned reply, w₂)
      → judge c reply ≡ retry
      → provider_loop float rt c ctx p msg (suc left) attempt last w
        ≡ provider_loop float rt c ctx p msg left (suc attempt) reply w₂
  unfolding provider_loop proceed
  loop_again left attempt w w₁ w₂ last reply waited sent judged = rw (waited, sent, judged)

  loop-Retries :
      (n left attempt : ℕ) (w w' : W) (last last' : Reply)
      → Retries n attempt w last w' last'
      → provider_loop float rt c ctx p msg (n + left) attempt last w
        ≡ provider_loop float rt c ctx p msg left (n + attempt) last' w'
  loop-Retries zero left attempt w w' last last' (same_w, same_last) =
      rw (zero-add left, zero-add attempt, same_w, same_last)
  loop-Retries (suc n) left attempt w w' last last' (w₁, w₂, reply, waited, sent, judged, rest) =
      rw (
        suc-add n left,
        loop_again (n + left) attempt w w₁ w₂ last reply waited sent judged,
        loop-Retries n left (suc attempt) w₂ w' reply last' rest,
        add-suc n attempt,
        suc-add n attempt,
      )

  pause_returns :
      (attempt : ℕ) (w : W)
      → (b : Bool) × (w₁ : W) × (pause float rt c ctx attempt w ≡ (returned b, w₁))
  unfolding pause
  pause_returns zero w = (true, w, refl)
  pause_returns (suc n) w = (
    (rt.elapses ctx (calculate_delay float c (pos n)) w).0,
    (rt.elapses ctx (calculate_delay float c (pos n)) w).1,
    refl,
  )

  -- Some rounds that are retried, and then an end.
  abbrev pub Ends : ℕ → ℕ → W → Reply → Outcome Reply × W → Type 0
  Ends left attempt w last out =
      (n : ℕ) × (w' : W) × (last' : Reply) × (n ≤ left)
      × Retries n attempt w last w' last'
      × End (n + attempt) (left - n) w' last' out

  Ends-now :
      (left attempt : ℕ) (w : W) (last : Reply) (out : Outcome Reply × W)
      → End attempt left w last out
      → Ends left attempt w last out
  Ends-now left attempt w last out e =
      (0, w, last, omega arith, (refl, refl), rw (zero-add attempt, sub-zero left) e)

  Ends-again :
      (left attempt : ℕ) (w w₁ w₂ : W) (last reply : Reply) (out : Outcome Reply × W)
      → pause float rt c ctx attempt w ≡ (returned true, w₁)
      → p.send ctx msg w₁ ≡ (returned reply, w₂)
      → judge c reply ≡ retry
      → Ends left (suc attempt) w₂ reply out
      → Ends (suc left) attempt w last out
  Ends-again left attempt w w₁ w₂ last reply out waited sent judged (n, w', last', bound, rest, e) =
      (
        suc n,
        w',
        last',
        omega arith,
        (w₁, w₂, reply, waited, sent, judged, rest),
        rw (suc-add n attempt, ← add-suc n attempt, suc-sub-suc left n) e,
      )

  replied :
      (left attempt : ℕ) (w w₁ w₂ : W) (last reply : Reply) (v : Verdict)
      → ((w' : W) (r : Reply)
          → Ends left
              (suc attempt)
              w'
              r
              (provider_loop float rt c ctx p msg left (suc attempt) r w'))
      → pause float rt c ctx attempt w ≡ (returned true, w₁)
      → p.send ctx msg w₁ ≡ (returned reply, w₂)
      → judge c reply ≡ v
      → Ends
          (suc left)
          attempt
          w
          last
          (provider_loop float rt c ctx p msg (suc left) attempt last w)
  unfolding provider_loop proceed
  replied left attempt w w₁ w₂ last reply retry ih waited sent judged =
      Ends-again left attempt w w₁ w₂ last reply _ waited sent judged
        (rw (waited, sent, judged) (ih w₂ reply))
  replied left attempt w w₁ w₂ last reply success ih waited sent judged =
      Ends-now (suc left) attempt w last _
        (stopped w₁ w₂ reply (omega arith) waited sent (inl judged) (rw (waited, sent, judged)))
  replied left attempt w w₁ w₂ last reply give_up ih waited sent judged =
      Ends-now (suc left) attempt w last _
        (stopped w₁ w₂ reply (omega arith) waited sent (inr judged) (rw (waited, sent, judged)))
  replied left attempt w w₁ w₂ last reply crash ih waited sent judged =
      Ends-now (suc left) attempt w last _
        (crashed w₁ w₂ (omega arith) waited (inr (reply, sent, judged)) (rw (waited, sent, judged)))

  attempted :
      (left attempt : ℕ) (w w₁ : W) (last : Reply) (sending : Outcome Reply × W)
      → ((w' : W) (r : Reply)
          → Ends left
              (suc attempt)
              w'
              r
              (provider_loop float rt c ctx p msg left (suc attempt) r w'))
      → pause float rt c ctx attempt w ≡ (returned true, w₁)
      → p.send ctx msg w₁ ≡ sending
      → Ends
          (suc left)
          attempt
          w
          last
          (provider_loop float rt c ctx p msg (suc left) attempt last w)
  unfolding provider_loop
  attempted left attempt w w₁ last (returned reply, w₂) ih waited sent =
      replied left attempt w w₁ w₂ last reply (judge c reply) ih waited sent refl
  attempted left attempt w w₁ last (panicked, w₂) ih waited sent =
      Ends-now (suc left) attempt w last _
        (crashed w₁ w₂ (omega arith) waited (inl sent) (rw (waited, sent)))

  waited_for :
      (left attempt : ℕ) (w w₁ : W) (last : Reply) (fired : Bool)
      → ((w' : W) (r : Reply)
          → Ends left
              (suc attempt)
              w'
              r
              (provider_loop float rt c ctx p msg left (suc attempt) r w'))
      → pause float rt c ctx attempt w ≡ (returned fired, w₁)
      → Ends
          (suc left)
          attempt
          w
          last
          (provider_loop float rt c ctx p msg (suc left) attempt last w)
  unfolding provider_loop
  waited_for left attempt w w₁ last true ih waited =
      attempted left attempt w w₁ last (p.send ctx msg w₁) ih waited refl
  waited_for left attempt w w₁ last false ih waited =
      Ends-now (suc left) attempt w last _ (canceled w₁ (omega arith) waited (rw (waited)))

  loop-Ends :
      (left attempt : ℕ) (w : W) (last : Reply)
      → Ends left attempt w last (provider_loop float rt c ctx p msg left attempt last w)
  unfolding provider_loop
  loop-Ends zero attempt w last = Ends-now 0 attempt w last _ (exhausted refl refl)
  loop-Ends (suc left) attempt w last =
      let (fired, w₁, waited) = pause_returns attempt w in
      waited_for left attempt w w₁ last fired (loop-Ends left (suc attempt)) waited

  -- Every run of Send makes some rounds that are retried, at most MaxRetries + 1 of them, and then
  -- ends in one of these ways: no attempt is left and the last reply is returned; the context is
  -- done during a wait; a reply is a success or an error that is not retried, and is returned; the
  -- provider panics, or returns neither a result nor an error, and Send panics.
  pub send_provider-Ends :
      (w : W) → Ends (attempts c) 0 w (none, nil) (send_provider float rt c ctx p msg w)
  unfolding send_provider
  send_provider-Ends w = loop-Ends (attempts c) 0 w (none, nil)

  module _ (n left : ℕ) (w w' : W) (last : Reply) (allowed : attempts c ≡ n + left)
      (retried : Retries n 0 w (none, nil) w' last) where
    pub send-after_rounds :
        send_provider float rt c ctx p msg w
        ≡ provider_loop float rt c ctx p msg left (n + 0) last w'
    unfolding send_provider
    send-after_rounds = rw allowed (loop-Retries n left 0 w w' (none, nil) last retried)
