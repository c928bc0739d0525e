-- ===== src/Idempotency/Token.antt =====
-- idempotency.go: newClaimToken. `rand.Read` fills the buffer or fails; encoding/hex writes each
-- byte as two lower-case digits.
use provider_kit.Base.{
  ℕ, ◌+◌, ◌-◌, ◌/◌, ◌%◌, ◌<◌, ◌≡◌, refl, arith, ltb, Str, bytes, [], ◌∷◌, ap, if◌then◌else◌,
}
use provider_kit.Errors.{Error, nil, wrapped}

hex_digit : ℕ → ℕ
hex_digit n = if ltb n 10 then b'0' + n else b'a' + n - 10

unfoldable pub hex_encode : Str → Str
unfolding hex_digit
hex_encode [] = []
hex_encode (b ∷ buf) = hex_digit (b / 16) ∷ hex_digit (b % 16) ∷ hex_encode buf

-- `rand.Read` gives the buffer and an error.
unfoldable pub new_claim_token : Str × Error → Str × Error
unfolding hex_encode
new_claim_token (buf, nil) = (hex_encode buf, nil)
new_claim_token (buf, err) =
    ([], wrapped (bytes "provider: generating an idempotency claim token") err)

abbrev pub AreBytes : Str → Type 0
AreBytes [] = Unit
AreBytes (b ∷ s) = (b < 256) × AreBytes s

hex_digit_injective : (m n : ℕ) → m < 16 → n < 16 → hex_digit m ≡ hex_digit n → m ≡ n
unfolding hex_digit
hex_digit_injective m n p q h = ground arith

-- Two buffers of bytes have the same hexadecimal text only if they are the same: claims that drew
-- different random bytes have different tokens.
pub hex_encode_injective :
    (s t : Str) → AreBytes s → AreBytes t → hex_encode s ≡ hex_encode t → s ≡ t
unfolding hex_encode
hex_encode_injective [] [] p q h = refl
hex_encode_injective [] (c ∷ t) p q h = ground arith
hex_encode_injective (b ∷ s) [] p q h = ground arith
hex_encode_injective (b ∷ s) (c ∷ t) p q h = ground (
  arith,
  hex_digit_injective (b / 16) (c / 16),
  hex_digit_injective (b % 16) (c % 16),
  hex_encode_injective s t p.1 q.1,
)

-- Two claims whose buffers of random bytes differ get different tokens.
pub new_claim_token_injective :
    (s t : Str)
    → AreBytes s
    → AreBytes t
    → new_claim_token (s, nil) ≡ new_claim_token (t, nil)
    → s ≡ t
unfolding new_claim_token
new_claim_token_injective s t p q h = hex_encode_injective s t p q (ap (λ (r : Str × Error). r.0) h)
