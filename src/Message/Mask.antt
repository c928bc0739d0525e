-- ===== src/Message/Mask.antt =====
-- message.go: maskDestination. `range` over a string yields a rune with the index of its first
-- byte; '@' is one byte and never a part of another rune, so the loop is one over bytes.
use provider_kit.Base.{
  Str, bytes, ℕ, zero, suc, ◌+◌, ◌-◌, Option, none, some, List, [], ◌∷◌, ◌++◌, ltb, leb, nat_eq,
  if◌then◌else◌, ◌&&◌,
}

module _ {ℓ} {A : Type ℓ} where
  -- len
  abbrev pub length : List A → ℕ
  length [] = 0
  length (x ∷ xs) = suc (length xs)

  -- s[:n] and s[n:]
  abbrev pub take : ℕ → List A → List A
  take zero xs = []
  take (suc n) [] = []
  take (suc n) (x ∷ xs) = x ∷ take n xs

  abbrev pub drop : ℕ → List A → List A
  drop zero xs = xs
  drop (suc n) [] = []
  drop (suc n) (x ∷ xs) = drop n xs

-- The loop over `dest`, at index `i` with `rest` left: `dest[i:]` at the first '@' beyond index 2.
unfoldable pub find_domain : ℕ → Str → Option Str
find_domain i [] = none
find_domain i (c ∷ rest) =
    let later = find_domain (i + 1) rest in
    if nat_eq c b'@' && ltb 2 i then some (c ∷ rest) else later

unfoldable pub mask_destination : Str → Str
unfolding find_domain
mask_destination dest = if leb (length dest) 4 then bytes "****" else elim (find_domain 0 dest) [
  | some domain ↦ take 2 dest ++ bytes "***" ++ domain
  | none ↦ bytes "***" ++ drop (length dest - 4) dest
]
