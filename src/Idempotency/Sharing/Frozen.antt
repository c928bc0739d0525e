-- ===== src/Idempotency/Sharing/Frozen.antt =====
-- idempotency.go: a recorded result cannot be changed from outside.
use provider_kit.Base.{
  ◌<◌, ◌≤◌, Str, Bool, Bool-cases, inl, inr, true, false, Option, none, some, [], ◌≡◌, refl, ◌∙◌,
  arith, ap,
}
use provider_kit.Idempotency.Sharing.{
  Ref, copied, ResultObject, result_object, Memory, map_at, error_at, load_map, load_error, load,
  clone_object, Sharing, add_option, recording, answering, Step, makes, writes, records, answers,
  drops, Reach, here, next,
}
use provider_kit.Idempotency.Sharing.Copies.{IsNew, clone_object-Cloned, clone_object-load}

-- From one state to another, the objects that no caller can reach stay as they are and out of reach.
abbrev Keeps : Sharing → Sharing → Type 0
Keeps s t =
    (s.memory.next ≤ t.memory.next)
    × ((j : Ref)
        → j < s.memory.next
        → s.held j ≡ false
        → (t.memory.objects j ≡ s.memory.objects j) × (t.held j ≡ false))

add-old :
    (m m' : Memory) (p : Option Ref) (held : Ref → Bool) (j : Ref)
    → j < m.next
    → IsNew m m' p
    → held j ≡ false
    → add_option p held j ≡ false
add-old m m' none held j old new h = h
add-old m m' (some r) held j old new h = ground (arith, new.0)

Step-Keeps : (s t : Sharing) → Step s t → Keeps s t
Step-Keeps _ _ (makes s o reachable) =
    (omega arith, λ j old out. (ground arith, ground (arith, out)))
Step-Keeps _ _ (writes s r o reached reachable) = (omega arith, λ j old out. (ground arith, out))
Step-Keeps _ _ (records s key r f reached at) =
    let cloned = clone_object-Cloned f s.memory in
    (cloned.extends.0, λ j old out. (cloned.extends.1 j old, out))
Step-Keeps _ _ (answers s key r f recorded at) =
    let cloned = clone_object-Cloned f s.memory in
    let m' = (clone_object f s.memory).2 in
    let out = (clone_object f s.memory).0 in
    (
      cloned.extends.0,
      λ j old free. (
        cloned.extends.1 j old,
        add-old s.memory m' (some (clone_object f s.memory).1)
            (add_option out.metadata (add_option out.error s.held)) j old cloned.struct_new
            (add-old s.memory m' out.metadata (add_option out.error s.held) j old
              cloned.metadata_new
              (add-old s.memory m' out.error s.held j old cloned.error_new free)),
      ),
    )
Step-Keeps _ _ (drops s key) = (omega arith, λ j old out. (refl, out))

Reach-Keeps : (s t : Sharing) → Reach s t → Keeps s t
Reach-Keeps s t here = (omega arith, λ j old out. (refl, out))
Reach-Keeps s u (next {t} reached step) =
    let (le, keeps) = Reach-Keeps s t reached in
    let (le', keeps') = Step-Keeps t u step in
    (
      omega arith,
      λ j old out.
          let (same, out') = keeps j old out in
          let (same', out'') = keeps' j (omega arith) out' in (same' ∙ same, out''),
    )

-- Callers reach only objects that exist.
abbrev pub IsSound : Sharing → Type 0
IsSound s = (j : Ref) → s.held j ≡ true → j < s.memory.next

add-new :
    (m m' : Memory) (p : Option Ref) (held : Ref → Bool)
    → IsNew m m' p
    → ((j : Ref) → held j ≡ true → j < m'.next)
    → (j : Ref) → add_option p held j ≡ true
    → j < m'.next
add-new m m' none held new sound j h = sound j h
add-new m m' (some r) held new sound j h = ground (arith, sound j, new.1)

Step-IsSound : (s t : Sharing) → Step s t → IsSound s → IsSound t
Step-IsSound _ _ (makes s o reachable) sound j h = ground (arith, sound j)
Step-IsSound _ _ (writes s r o reached reachable) sound j h = sound j h
Step-IsSound _ _ (records s key r f reached at) sound j h =
    let cloned = clone_object-Cloned f s.memory in omega (arith, sound j h, cloned.extends.0)
Step-IsSound _ _ (answers s key r f recorded at) sound j h =
    let cloned = clone_object-Cloned f s.memory in
    let (out, made, m') = clone_object f s.memory in
    add-new s.memory m' (some made) _ cloned.struct_new
      (add-new s.memory m' out.metadata _ cloned.metadata_new (
        add-new s.memory m' out.error s.held cloned.error_new
          (λ i h'. omega (arith, sound i h', cloned.extends.0))))
      j h
Step-IsSound _ _ (drops s key) sound j h = sound j h

-- Nothing is allocated, recorded or held.
abbrev pub start : Sharing
start = record {
  memory = record { objects = λ j. none; next = 0 };
  recorded = [];
  held = λ j. false;
}

Reach-IsSound : (s : Sharing) → Reach start s → IsSound s
Reach-IsSound _ here = λ j h. absurd (cc h)
Reach-IsSound _ (next {t} reached step) = Step-IsSound t _ step (Reach-IsSound t reached)

not_held : (s : Sharing) (j : Ref) → IsSound s → s.memory.next ≤ j → s.held j ≡ false
not_held s j sound new = elim (Bool-cases (s.held j)) [
  | inl held ↦ absurd (omega (arith, sound j held))
  | inr free ↦ free
]

module _ (s : Sharing) (key : Str) (f : ResultObject) (sound : IsSound s) (t : Sharing)
    (later : Reach (recording key f s) t) where
  -- What the clone consists of stays as it is.
  clone-kept :
      (j : Ref)
      → s.memory.next ≤ j
      → j < (clone_object f s.memory).2.next
      → t.memory.objects j ≡ (clone_object f s.memory).2.objects j
  clone-kept j new old =
      ((Reach-Keeps (recording key f s) t later).1 j old (not_held s j sound new)).0

  pointer-kept :
      (p : Option Ref)
      → IsNew s.memory (clone_object f s.memory).2 p
      → (load_map t.memory p ≡ load_map (clone_object f s.memory).2 p)
        × (load_error t.memory p ≡ load_error (clone_object f s.memory).2 p)
  pointer-kept none new = (refl, refl)
  pointer-kept (some r) new =
      (ap map_at (clone-kept r new.0 new.1), ap error_at (clone-kept r new.0 new.1))

  load-kept :
      load t.memory (clone_object f s.memory).0
      ≡ load (clone_object f s.memory).2 (clone_object f s.memory).0
  load-kept =
      let cloned = clone_object-Cloned f s.memory in
      rw (
        (pointer-kept (clone_object f s.memory).0.metadata cloned.metadata_new).0,
        (pointer-kept (clone_object f s.memory).0.error cloned.error_new).1,
      )

  same_struct :
      (f₁ : ResultObject)
      → t.memory.objects (clone_object f s.memory).1 ≡ some (result_object f₁)
      → f₁ ≡ (clone_object f s.memory).0
  same_struct f₁ at =
      let cloned = clone_object-Cloned f s.memory in
      let kept = clone-kept (clone_object f s.memory).1 cloned.struct_new.0 cloned.struct_new.1 in
      let there = cloned.struct_at in cc

-- A result that was cloned and recorded is frozen, but for what stands behind the Err of its error.
-- Whatever callers and providers do afterwards with every object that they can reach, the result that
-- they passed in, its map and error and the answers that they got included, and whatever is recorded,
-- answered and dropped: each later answer that is made of the recorded result has the fields, the
-- metadata and the ProviderError that the result had when it was recorded. The Err of that
-- ProviderError is the same pointer or value; an inner ProviderError that it points to stays shared.
pub recorded_is_frozen :
    (s t : Sharing) (key : Str) (f f₁ : ResultObject)
    → Reach start s
    → Reach (recording key f s) t
    → t.memory.objects (clone_object f s.memory).1 ≡ some (result_object f₁)
    → load (answering f₁ t).memory (clone_object f₁ t.memory).0 ≡ copied (copied (load s.memory f))
recorded_is_frozen s t key f f₁ before later at =
    let sound = Reach-IsSound s before in
    clone_object-load f₁ t.memory
    ∙ ap copied (
        ap (λ (g : ResultObject). load t.memory g) (same_struct s key f sound t later f₁ at)
        ∙ (load-kept s key f sound t later ∙ clone_object-load f s.memory))
