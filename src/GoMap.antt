-- ===== src/GoMap.antt =====
-- Go's `map[string]V`: comma-ok lookup, assignment, `delete` and `range`. The order of the entries
-- says nothing of the program: a `range` loop meets them in an order of its own, a RangeOrder; the
-- laws below do not depend on it.
pub mod Unique
use mathlib.Core.List.{Permᴰ}
use provider_kit.Base.{
  Str, ◌==◌, ==_iff, Option, none, some, List, [], ◌∷◌, ◌≡◌, refl, arith, if◌then◌else◌,
}

abbrev pub GoMap {ℓ} : Type ℓ → Type ℓ
GoMap V = List (Str × V)

-- The entries of a map in the order in which one `range` loop meets them, chosen anew by each loop.
abbrev pub RangeOrder {ℓ} : Type ℓ → Type ℓ
RangeOrder V = GoMap V → GoMap V

-- It meets each entry once.
abbrev pub IsRange {ℓ} : {V : Type ℓ} → RangeOrder V → Type ℓ
IsRange {V = V} order = (m : GoMap V) → Permᴰ (order m) m

module _ {ℓ} {V : Type ℓ} where
  -- v, ok := m[k]
  unfoldable pub get : Str → GoMap V → Option V
  get k [] = none
  get k ((j, v) ∷ m) = if j == k then some v else get k m

  -- m[k] = v
  unfoldable pub put : Str → V → GoMap V → GoMap V
  put k v [] = (k, v) ∷ []
  put k v ((j, w) ∷ m) = if j == k then (k, v) ∷ m else (j, w) ∷ put k v m

  -- delete(m, k)
  unfoldable pub delete : Str → GoMap V → GoMap V
  delete k [] = []
  delete k ((j, v) ∷ m) = let rest = delete k m in if j == k then rest else (j, v) ∷ rest

  -- for k, v := range src { dst[k] = v }
  unfoldable pub put_all : GoMap V → GoMap V → GoMap V
  unfolding put
  put_all [] dst = dst
  put_all ((k, v) ∷ src) dst = put_all src (put k v dst)

  pub get-empty : (k : Str) → get k [] ≡ none
  unfolding get
  get-empty k = refl

  pub get-put :
      (j k : Str) (v : V) (m : GoMap V) → get j (put k v m) ≡ (if k == j then some v else get j m)
  unfolding get put
  get-put j k v [] = refl
  get-put j k v ((i, w) ∷ m) = ground (arith, ==_iff i k, ==_iff i j, ==_iff k j, get-put j k v m)

  pub get-delete :
      (j k : Str) (m : GoMap V) → get j (delete k m) ≡ (if k == j then none else get j m)
  unfolding get delete
  get-delete j k [] = ground arith
  get-delete j k ((i, w) ∷ m) = ground (arith, ==_iff i k, ==_iff i j, ==_iff k j, get-delete j k m)

pub ruleset map_laws = (get-empty, get-put, get-delete)
