-- ===== src/Provider.antt =====
-- interface.go: the Provider and Sender interfaces, over a world `W` that holds whatever a provider
-- reads or changes. A method is an action on the world; it may panic. The package `context` and the
-- calls of the runtime (clock, timers, randomness) that the wrappers make are here too.
pub mod Actions
use provider_kit.Base.{
  Str, Bool, true, false, not, Option, none, some, ℤ, ltb_ℤ, ◌+ℤ◌, pos, ◌*◌, ◌^◌, if◌then◌else◌,
  ◌&&◌, ◌||◌, ◌≡◌, ◌≢◌, ◌⊎◌,
}
use provider_kit.GoMap.{GoMap}
use provider_kit.Channel.{Channel}
use provider_kit.Errors.{Error, nil, canceled, deadline_exceeded}
use provider_kit.SendResult.{SendResult, Time}
use provider_kit.Message.{Message}
use Actions.{Action, Outcome, returned, panicked}

-- In nanoseconds.
abbrev pub Duration : Type 0
Duration = ℤ

abbrev pub seconds : ℤ
seconds = pos 1_000_000_000

abbrev pub milliseconds : ℤ
milliseconds = pos 1_000_000

-- t.Before(u) and t.After(u)
abbrev pub before : Time → Time → Bool
before t u = ltb_ℤ t u

abbrev pub after : Time → Time → Bool
after t u = ltb_ℤ u t

-- A context, by the instants at which it is cancelled and at which its deadline passes.
pub record Context : Type 0 where
  pub canceled_at : Option Time
  pub deadline : Option Time

abbrev reached : Option Time → Time → Bool
reached none now = false
reached (some t) now = not (after t now)

abbrev reached_first : Option Time → Option Time → Bool
reached_first none u = false
reached_first (some t) none = true
reached_first (some t) (some u) = not (after t u)

-- ctx.Err() at an instant: the first of the two events that has happened
unfoldable pub ctx_err : Context → Time → Error
ctx_err c now =
    if reached c.canceled_at now && reached_first c.canceled_at c.deadline
    then canceled
    else if reached c.deadline now
    then deadline_exceeded
    else if reached c.canceled_at now
    then canceled
    else nil

-- What Send returns: a result, which may be nil, and an error, which may be nil.
abbrev pub Reply : Type 0
Reply = Option SendResult × Error

-- What callers expect of Send: a result, and it is OK exactly if the error is nil.
abbrev pub IsConsistent : Outcome Reply → Type 0
IsConsistent (returned (some r, err)) =
    ((r.ok ≡ true) × (err ≡ nil)) ⊎ ((r.ok ≡ false) × (err ≢ nil))
IsConsistent (returned (none, err)) = ⊥
IsConsistent panicked = ⊥

pub record Provider (W : Type 0) : Type 0 where
  pub send : Context → Option Message → Action W Reply
  pub channel : Channel
  pub name : Str
  pub validate : Error

pub record Sender (W : Type 0) : Type 0 where
  pub send : Context → Channel → Option Message → Action W Reply

-- The calls of the Go runtime. `elapses` is the select over `ctx.Done()` and `time.After(delay)`:
-- true if the timer fires first. `rand_read` fills a buffer of 16 bytes, or fails with an error.
pub record Runtime (W : Type 0) : Type 0 where
  pub now : W → Time × W
  pub elapses : Context → Duration → W → Bool × W
  pub rand_read : W → (Str × Error) × W
