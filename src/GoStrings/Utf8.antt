-- ===== src/GoStrings/Utf8.antt =====
-- unicode/utf8: the width of the rune at the front of a text.
use provider_kit.Base.{
  ℕ, zero, suc, ◌-◌, Str, ltb, leb, Bool, true, false, ◌&&◌, Option, none, some, [], ◌∷◌,
  if◌then◌else◌,
}

abbrev within : ℕ → ℕ → ℕ → Bool
within lo hi c = leb lo c && leb c hi

abbrev continues : ℕ → Bool
continues c = within 0x80 0xbf c

-- The bytes that may follow a first byte, by the table of Go's utf8: the width if they do.
abbrev two : Str → Option ℕ
two (c ∷ s) = if continues c then some 2 else none
two [] = none

abbrev three : ℕ → ℕ → Str → Option ℕ
three lo hi (c ∷ d ∷ s) = if within lo hi c && continues d then some 3 else none
three lo hi s = none

abbrev four : ℕ → ℕ → Str → Option ℕ
four lo hi (c ∷ d ∷ e ∷ s) = if within lo hi c && continues d && continues e then some 4 else none
four lo hi s = none

-- utf8.DecodeRuneInString: the width of a rune, and `none` for RuneError, which is one byte wide.
unfoldable pub rune_width : Str → Option ℕ
rune_width [] = none
rune_width (b ∷ s) =
    if ltb b 0x80
    then some 1
    else if within 0xc2 0xdf b
    then two s
    else if within 0xe0 0xe0 b
    then three 0xa0 0xbf s
    else if within 0xed 0xed b
    then three 0x80 0x9f s
    else if within 0xe1 0xef b
    then three 0x80 0xbf s
    else if within 0xf0 0xf0 b
    then four 0x90 0xbf s
    else if within 0xf1 0xf3 b
    then four 0x80 0xbf s
    else if within 0xf4 0xf4 b
    then four 0x80 0x8f s
    else none

-- Behind the first byte of a rune, `left` bytes of it are to come.
unfoldable pub valid_from : ℕ → Str → Bool
unfolding rune_width
valid_from left [] = true
valid_from (suc left) (c ∷ s) = valid_from left s
valid_from zero (c ∷ s) = elim (rune_width (c ∷ s)) [ none ↦ false | some w ↦ valid_from (w - 1) s ]

-- utf8.ValidString
unfoldable pub valid_string : Str → Bool
unfolding valid_from
valid_string s = valid_from 0 s
