-- ===== src/GoStrings.antt =====
-- What the code uses of the packages strings, strconv and unicode/utf8, on sequences of bytes.
pub mod Decimal
pub mod Utf8
pub mod Replace
use provider_kit.Base.{
  ℕ, suc, Str, nat_eq, Bool, true, false, ◌&&◌, ◌||◌, Option, none, some, List, [], ◌∷◌, ◌++◌, ℤ,
  pos, negsuc, if◌then◌else◌,
}
use Decimal.{decimal}

-- strings.HasPrefix
unfoldable pub has_prefix : Str → Str → Bool
has_prefix s [] = true
has_prefix [] (p ∷ ps) = false
has_prefix (c ∷ s) (p ∷ ps) = nat_eq c p && has_prefix s ps

abbrev reverse_onto : Str → Str → Str
reverse_onto done [] = done
reverse_onto done (c ∷ s) = reverse_onto (c ∷ done) s

-- strings.HasSuffix
unfoldable pub has_suffix : Str → Str → Bool
unfolding has_prefix
has_suffix s suffix = has_prefix (reverse_onto [] s) (reverse_onto [] suffix)

-- strings.IndexByte(s, b) >= 0
unfoldable pub contains_byte : ℕ → Str → Bool
contains_byte b [] = false
contains_byte b (c ∷ s) = nat_eq c b || contains_byte b s

-- strings.ContainsAny, for a set of ASCII characters
unfoldable pub contains_any : Str → Str → Bool
unfolding contains_byte
contains_any [] chars = false
contains_any (c ∷ s) chars = contains_byte c chars || contains_any s chars

-- s[strings.LastIndexByte(s, b)+1:], if there is such a byte
unfoldable pub after_last : ℕ → Str → Option Str
after_last b [] = none
after_last b (c ∷ s) = elim (after_last b s) [
  | some t ↦ some t
  | none ↦ if nat_eq c b then some s else none
]

-- strconv.Itoa
unfoldable pub itoa : ℤ → Str
unfolding decimal
itoa (pos n) = decimal n
itoa (negsuc n) = b'-' ∷ decimal (suc n)

-- The white space of unicode.IsSpace, encoded.
abbrev white_space : List Str
white_space =
    (0x09 ∷ [])
    ∷ (0x0a ∷ [])
    ∷ (0x0b ∷ [])
    ∷ (0x0c ∷ [])
    ∷ (0x0d ∷ [])
    ∷ (0x20 ∷ [])
    ∷ (0xc2 ∷ 0x85 ∷ [])
    ∷ (0xc2 ∷ 0xa0 ∷ [])
    ∷ (0xe1 ∷ 0x9a ∷ 0x80 ∷ [])
    ∷ (0xe2 ∷ 0x80 ∷ 0x80 ∷ [])
    ∷ (0xe2 ∷ 0x80 ∷ 0x81 ∷ [])
    ∷ (0xe2 ∷ 0x80 ∷ 0x82 ∷ [])
    ∷ (0xe2 ∷ 0x80 ∷ 0x83 ∷ [])
    ∷ (0xe2 ∷ 0x80 ∷ 0x84 ∷ [])
    ∷ (0xe2 ∷ 0x80 ∷ 0x85 ∷ [])
    ∷ (0xe2 ∷ 0x80 ∷ 0x86 ∷ [])
    ∷ (0xe2 ∷ 0x80 ∷ 0x87 ∷ [])
    ∷ (0xe2 ∷ 0x80 ∷ 0x88 ∷ [])
    ∷ (0xe2 ∷ 0x80 ∷ 0x89 ∷ [])
    ∷ (0xe2 ∷ 0x80 ∷ 0x8a ∷ [])
    ∷ (0xe2 ∷ 0x80 ∷ 0xa8 ∷ [])
    ∷ (0xe2 ∷ 0x80 ∷ 0xa9 ∷ [])
    ∷ (0xe2 ∷ 0x80 ∷ 0xaf ∷ [])
    ∷ (0xe2 ∷ 0x81 ∷ 0x9f ∷ [])
    ∷ (0xe3 ∷ 0x80 ∷ 0x80 ∷ [])
    ∷ []

some_prefix : Str → List Str → Bool
some_prefix s [] = false
some_prefix s (p ∷ ps) = has_prefix s p || some_prefix s ps

some_suffix : Str → List Str → Bool
some_suffix s [] = false
some_suffix s (p ∷ ps) = has_suffix s p || some_suffix s ps

-- strings.TrimSpace(s) != s: it begins or ends with white space.
unfoldable pub is_trimmable : Str → Bool
unfolding some_prefix some_suffix has_prefix has_suffix
is_trimmable s = some_prefix s white_space || some_suffix s white_space
