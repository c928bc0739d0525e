-- ===== src/GoStrings/Decimal.antt =====
-- strconv.Itoa, and %d of fmt: decimal digits.
use provider_kit.Base.{
  ℕ, zero, suc, leb, Bool, Bool-cases, true, false, ◌&&◌, ◌||◌, inl, inr, ◌+◌, ◌-◌, ◌*◌, ◌/◌, ◌%◌,
  ◌^◌, ◌<◌, Str, ltb, [], ◌∷◌, ◌++◌, ◌≡◌, refl, arith, if◌then◌else◌,
}

-- Decimal digits, on fuel: one unit for each digit.
unfoldable pub digits : ℕ → ℕ → Str
digits zero n = []
digits (suc fuel) n =
    let rest = digits fuel (n / 10) in
    if ltb n 10 then (b'0' + n) ∷ [] else rest ++ (b'0' + n % 10) ∷ []

-- An int has 64 bits, and so at most 19 digits.
unfoldable pub decimal : ℕ → Str
unfolding digits
decimal n = digits 19 n

-- What a text of digits says, read from the left.
unfoldable pub value : ℕ → Str → ℕ
value seen [] = seen
value seen (d ∷ ds) = value (seen * 10 + (d - b'0')) ds

value-++ : (seen d : ℕ) (s : Str) → value seen (s ++ d ∷ []) ≡ value seen s * 10 + (d - b'0')
unfolding value
value-++ seen d [] = refl
value-++ seen d (c ∷ s) = value-++ (seen * 10 + (c - b'0')) d s

value-digits : (fuel n : ℕ) → n < 10 ^ fuel → value 0 (digits fuel n) ≡ n
unfolding value digits
value-digits zero n h = omega arith
value-digits (suc fuel) n h = ground (
  arith,
  value-digits fuel (n / 10) (omega arith),
  value-++ 0 (b'0' + n % 10) (digits fuel (n / 10)),
)

pub value-decimal : (n : ℕ) → n < 10 ^ 19 → value 0 (decimal n) ≡ n
unfolding decimal
value-decimal n h = value-digits 19 n h

abbrev pub is_digit : ℕ → Bool
is_digit c = leb b'0' c && leb c b'9'

-- A text of digits, and a text without one.
abbrev pub AreDigits : Str → Type 0
AreDigits [] = Unit
AreDigits (c ∷ s) = (is_digit c ≡ true) × AreDigits s

abbrev pub has_digit : Str → Bool
has_digit [] = false
has_digit (c ∷ s) = is_digit c || has_digit s

AreDigits-snoc : (s : Str) (d : ℕ) → AreDigits s → is_digit d ≡ true → AreDigits (s ++ d ∷ [])
AreDigits-snoc [] d a b = (b, tt)
AreDigits-snoc (c ∷ s) d a b = (a.0, AreDigits-snoc s d a.1 b)

digits-AreDigits : (fuel n : ℕ) → AreDigits (digits fuel n)
unfolding digits
digits-AreDigits zero n = tt
digits-AreDigits (suc fuel) n = elim (Bool-cases (ltb n 10)) [
  | inl small ↦ rw small (ground (arith, small), tt)
  | inr large ↦ rw large (AreDigits-snoc _ _ (digits-AreDigits fuel (n / 10)) (ground arith))
]

pub decimal-AreDigits : (n : ℕ) → AreDigits (decimal n)
unfolding decimal
decimal-AreDigits n = digits-AreDigits 19 n
