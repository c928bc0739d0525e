-- ===== src/Message/Masking.antt =====
-- message.go: what a masked destination shows.
use provider_kit.Base.{
  Str, bytes, ℕ, zero, suc, ◌+◌, ◌-◌, ◌≤◌, ◌<◌, none, some, [], ◌∷◌, ◌++◌, ◌≡◌, ◌≢◌, refl, ap, sym,
  arith, ltb, leb, nat_eq, ◌&&◌, inl, inr, Option-cases, Bool-cases,
}
use provider_kit.Message.Mask.{length, take, drop, find_domain, mask_destination}

-- No '@' beyond index 2 of a text that starts at index `i`.
abbrev pub NoDomain : ℕ → Str → Type 0
NoDomain i [] = Unit
NoDomain i (c ∷ s) = (2 < i → c ≢ b'@') × NoDomain (i + 1) s

find_domain-none : (i : ℕ) (s : Str) → find_domain i s ≡ none → NoDomain i s
unfolding find_domain
find_domain-none i [] h = tt
find_domain-none i (c ∷ s) h = ground (arith, find_domain-none (i + 1) s)

-- The domain that the loop finds: the rest from the first '@' beyond index 2 on.
abbrev pub IsDomain : ℕ → Str → Str → Type 0
IsDomain i s domain =
    (local : Str) × (rest : Str) × (s ≡ local ++ domain)
    × (domain ≡ b'@' ∷ rest)
    × (2 < i + length local)
    × NoDomain i local

find_domain-some : (i : ℕ) (s domain : Str) → find_domain i s ≡ some domain → IsDomain i s domain
unfolding find_domain
find_domain-some i [] domain h = cc
find_domain-some i (c ∷ s) domain h = elim (Bool-cases (nat_eq c b'@' && ltb 2 i)) [
  | inl here ↦ ([], s, ground arith, ground arith, ground arith, tt)
  | inr later ↦
      let (local, rest, split, at, long, clear) =
        find_domain-some (i + 1) s domain (ground arith) in
      (c ∷ local, rest, ap (λ (t : Str). c ∷ t) split, at, omega arith, (ground arith, clear))
]

take-append-drop : (n : ℕ) (s : Str) → take n s ++ drop n s ≡ s
take-append-drop zero s = refl
take-append-drop (suc n) [] = refl
take-append-drop (suc n) (c ∷ s) = ap (λ (t : Str). c ∷ t) (take-append-drop n s)

length-drop : (n : ℕ) (s : Str) → length (drop n s) ≡ length s - n
length-drop zero s = omega arith
length-drop (suc n) [] = omega arith
length-drop (suc n) (c ∷ s) = omega (arith, length-drop n s)

-- How a masked destination comes from the destination.
pub data Masked (dest out : Str) : Type 0 where
  -- At most four bytes: nothing is shown.
  short : length dest ≤ 4 → out ≡ bytes "****" → Masked dest out
  -- The first two bytes and the domain are shown; the local part has at least three bytes.
  email :
      (domain : Str)
      → 4 < length dest
      → IsDomain 0 dest domain
      → out ≡ take 2 dest ++ bytes "***" ++ domain
      → Masked dest out
  -- No domain: the last four bytes are shown.
  phone :
      (hidden shown : Str)
      → 4 < length dest
      → NoDomain 0 dest
      → dest ≡ hidden ++ shown
      → length shown ≡ 4
      → out ≡ bytes "***" ++ shown
      → Masked dest out

long-Masked : (dest : Str) → 4 < length dest → Masked dest (mask_destination dest)
unfolding mask_destination
long-Masked dest long = elim (Option-cases (find_domain 0 dest)) [
  | inl missing ↦
      phone (take (length dest - 4) dest) (drop (length dest - 4) dest) long
        (find_domain-none 0 dest missing) (sym (take-append-drop (length dest - 4) dest))
        (omega (arith, length-drop (length dest - 4) dest)) (ground arith)
  | inr (domain, found) ↦ email domain long (find_domain-some 0 dest domain found) (ground arith)
]

-- What a masked destination shows of the destination: nothing, if it has at most four bytes; its
-- first two bytes and what follows from its first '@' beyond index 2 on, if there is such an '@';
-- and its last four bytes otherwise.
pub mask_destination-Masked : (dest : Str) → Masked dest (mask_destination dest)
unfolding mask_destination
mask_destination-Masked dest = elim (Bool-cases (leb (length dest) 4)) [
  | inl few ↦ short (ground arith) (ground arith)
  | inr many ↦ long-Masked dest (ground arith)
]
