-- ===== src/Errors/Chain.antt =====
-- errors.go: what NormalizeError keeps, what it fills in, and what it writes through the pointer.
use provider_kit.Base.{
  Str, ==_iff, ◌==◌, ◌⊎◌, Bool-cases, none, some, [], ◌≡◌, ◌≢◌, refl, arith, if◌then◌else◌, inl,
  inr, Option-cases,
}
use provider_kit.Channel.{Channel}
use provider_kit.Errors.Reason
use provider_kit.Errors.Reason.{ErrorReason}
use provider_kit.Errors.{
  Error, nil, provider_error, wrapped, plain, canceled, deadline_exceeded, network, ProviderError,
  error_text, as_provider_error, get_error_reason, fill, write_first, normalize_error,
}

-- The reason that callers see for any error once it has been normalized.
abbrev pub reason_of : Error → ErrorReason
reason_of err = if (get_error_reason err).1 then (get_error_reason err).0 else Reason.send_failed

as-write_first :
    (f : ProviderError → ProviderError) (err : Error) (e : ProviderError)
    → as_provider_error err ≡ some e
    → as_provider_error (write_first f err) ≡ some (f e)
unfolding as_provider_error write_first
as-write_first f (provider_error r m n c err) e h = ground arith
as-write_first f (wrapped t err) e h = as-write_first f err e h
as-write_first f nil e h = cc
as-write_first f (plain t) e h = cc
as-write_first f canceled e h = cc
as-write_first f deadline_exceeded e h = cc
as-write_first f (network b t) e h = cc

-- A blank that is filled in, and a field that is kept.
abbrev Filled : Str → Str → Str → Type 0
Filled value before after = ((before ≡ []) × (after ≡ value)) ⊎ ((before ≢ []) × (after ≡ before))

-- `after` is `before` with the channel and the provider name filled in where they were blank.
pub record Fills (channel : Channel) (name : Str) (before after : ProviderError) : Type 0 where
  pub same_reason : after.reason ≡ before.reason
  pub same_message : after.message ≡ before.message
  pub same_err : after.err ≡ before.err
  pub channel_filled : Filled channel before.channel after.channel
  pub name_filled : Filled name before.provider_name after.provider_name

-- The ProviderError for an error whose chain has none.
abbrev unknown : Error → Channel → Str → ProviderError
unknown err channel name = record {
  reason = Reason.send_failed;
  message = error_text err;
  provider_name = name;
  channel = channel;
  err = err;
}

-- `e` is the answer: the first ProviderError of the chain with its blanks filled in, also where the
-- chain is read again, or a new one around a chain that has none and stays as it is.
abbrev pub Normalizes : Error → Channel → Str → ProviderError → Type 0
Normalizes err channel name e =
    ((normalize_error err channel name).0 ≡ some e)
    × (e.reason ≡ reason_of err)
    × (((before : ProviderError) × (as_provider_error err ≡ some before)
          × Fills channel name before e
          × (as_provider_error (normalize_error err channel name).1 ≡ some e))
        ⊎ ((as_provider_error err ≡ none)
            × (e ≡ unknown err channel name)
            × ((normalize_error err channel name).1 ≡ err)))

fill-Fills :
    (channel : Channel) (name : Str) (e : ProviderError)
    → Fills channel name e (fill channel name e)
unfolding fill
fill-Fills channel name e = elim (Bool-cases (e.channel == [])) [
  | inl no_channel ↦ elim (Bool-cases (e.provider_name == [])) [
    | inl no_name ↦
        rw (no_channel, no_name)
          (record {
            same_reason = refl;
            same_message = refl;
            same_err = refl;
            channel_filled = inl ((==_iff e.channel []).0 no_channel, refl);
            name_filled = inl ((==_iff e.provider_name []).0 no_name, refl);
          })
    | inr named ↦
        rw (no_channel, named)
          (record {
            same_reason = refl;
            same_message = refl;
            same_err = refl;
            channel_filled = inl ((==_iff e.channel []).0 no_channel, refl);
            name_filled = inr (ground (arith, ==_iff e.provider_name []), refl);
          })
  ]
  | inr has_channel ↦ elim (Bool-cases (e.provider_name == [])) [
    | inl no_name ↦
        rw (has_channel, no_name)
          (record {
            same_reason = refl;
            same_message = refl;
            same_err = refl;
            channel_filled = inr (ground (arith, ==_iff e.channel []), refl);
            name_filled = inl ((==_iff e.provider_name []).0 no_name, refl);
          })
    | inr named ↦
        rw (has_channel, named)
          (record {
            same_reason = refl;
            same_message = refl;
            same_err = refl;
            channel_filled = inr (ground (arith, ==_iff e.channel []), refl);
            name_filled = inr (ground (arith, ==_iff e.provider_name []), refl);
          })
  ]
]

normalize_found :
    (err : Error) (channel : Channel) (name : Str) (e : ProviderError)
    → as_provider_error err ≡ some e
    → Normalizes err channel name (fill channel name e)
unfolding normalize_error get_error_reason
normalize_found err channel name e h =
    let fills = fill-Fills channel name e in
    let same_reason = fills.same_reason in
    (
      rw (h, normalize_error),
      ground arith,
      inl (e, h, fills, rw (h, normalize_error) (as-write_first (fill channel name) err e h)),
    )

wrap_unknown-Normalizes :
    (err : Error) (channel : Channel) (name : Str)
    → err ≢ nil
    → as_provider_error err ≡ none
    → Normalizes err channel name (unknown err channel name)
unfolding normalize_error get_error_reason as_provider_error
wrap_unknown-Normalizes nil channel name h k = absurd (h refl)
wrap_unknown-Normalizes (provider_error r m n c err) channel name h k = cc
wrap_unknown-Normalizes err channel name h k =
    (ground arith, ground arith, inr (k, refl, ground arith))

-- Any error but nil is normalized to a ProviderError that has the reason of the chain (or
-- send_failed if the chain has none). If the chain has a ProviderError, that one is the answer: its
-- reason, message and Err are kept, the channel and the provider name are written where they were
-- blank and kept where they were not, and the chain read again shows the same. If it has none, the
-- answer is a new one with the text of the error, the channel and the name, around the error, which
-- stays as it is.
pub normalize_error_total :
    (err : Error) (channel : Channel) (name : Str)
    → err ≢ nil
    → (e : ProviderError) × Normalizes err channel name e
normalize_error_total err channel name h = elim (Option-cases (as_provider_error err)) [
  | inl missing ↦ (unknown err channel name, wrap_unknown-Normalizes err channel name h missing)
  | inr (e, found) ↦ (fill channel name e, normalize_found err channel name e found)
]

-- What NormalizeError writes through the pointer that it found is invisible to GetErrorReason.
pub get_error_reason-normalize_error :
    (err : Error) (channel : Channel) (name : Str)
    → get_error_reason (normalize_error err channel name).1 ≡ get_error_reason err
unfolding normalize_error get_error_reason
get_error_reason-normalize_error err channel name = elim (Option-cases (as_provider_error err)) [
  | inl missing ↦ ground arith
  | inr (e, found) ↦ ground (
    arith,
    as-write_first (fill channel name) err e found,
    (fill-Fills channel name e).same_reason,
  )
]

-- An error that is not nil stays one when NormalizeError has written through its pointer.
pub normalize_error-ne_nil :
    (err : Error) (channel : Channel) (name : Str)
    → err ≢ nil
    → (normalize_error err channel name).1 ≢ nil
unfolding normalize_error as_provider_error write_first
normalize_error-ne_nil nil channel name h = absurd (h refl)
normalize_error-ne_nil err channel name h = ground arith
