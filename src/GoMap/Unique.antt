-- ===== src/GoMap/Unique.antt =====
-- A map holds each key once; the laws of `range` loops rest on that.
use provider_kit.Base.{Str, ==_iff, none, some, [], ◌∷◌, ◌≡◌, refl, arith}
use provider_kit.GoMap.{GoMap, get, put, delete, put_all, get-put, get-delete}

module _ {ℓ} {V : Type ℓ} where
  abbrev pub Unique : GoMap V → Type ℓ
  Unique [] = Unit
  Unique ((k, v) ∷ m) = (get k m ≡ none) × Unique m

  pub put-Unique : (k : Str) (v : V) (m : GoMap V) → Unique m → Unique (put k v m)
  unfolding put get
  put-Unique k v [] u = (refl, tt)
  put-Unique k v ((j, w) ∷ m) u =
      ground (arith, put-Unique k v m u.1, ==_iff j k, ==_iff k j, get-put j k v m)

  pub delete-Unique : (k : Str) (m : GoMap V) → Unique m → Unique (delete k m)
  unfolding delete
  delete-Unique k [] u = tt
  delete-Unique k ((j, w) ∷ m) u = ground (arith, delete-Unique k m u.1, get-delete j k m)

  -- A `range` loop that copies one map into another lets the copied entries win.
  pub get-put_all :
      (j : Str) (src dst : GoMap V)
      → Unique src
      → get j (put_all src dst) ≡ (elim (get j src) [ some v ↦ some v | none ↦ get j dst ])
  unfolding put_all get
  get-put_all j [] dst u = refl
  get-put_all j ((k, v) ∷ src) dst u =
      ground (arith, get-put_all j src (put k v dst) u.1, get-put j k v dst, ==_iff k j)
