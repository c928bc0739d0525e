-- ===== src/Provider/Actions.antt =====
-- Actions: what a method does to the world, and whether it returns or panics. What was changed before
-- a panic stays changed.

pub data Outcome (A : Type 0) : Type 0 where
  returned : A → Outcome A
  panicked : Outcome A

abbrev pub Action : Type 0 → Type 0 → Type 0
Action W A = W → Outcome A × W

module _ {W A : Type 0} where
  abbrev pub pure : A → Action W A
  pure a w = (returned a, w)

  abbrev pub panic : Action W A
  panic w = (panicked, w)

  -- A call that cannot panic.
  abbrev pub total : (W → A × W) → Action W A
  total f w = let (a, w') = f w in (returned a, w')

module _ {W A B : Type 0} where
  abbrev pub continue : Outcome A → (A → Action W B) → Action W B
  continue (returned a) f w = f a w
  continue panicked f w = (panicked, w)

  infixl 5 ◌>>=◌ ◌>>◌
  abbrev pub ◌>>=◌ : Action W A → (A → Action W B) → Action W B
  ◌>>=◌ m f w = let (r, w') = m w in continue r f w'

  abbrev pub ◌>>◌ : Action W A → Action W B → Action W B
  m >> n = m >>= λ _. n
