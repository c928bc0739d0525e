-- ===== src/GoStrings/Replace.antt =====
-- strings.ReplaceAll.
use provider_kit.Base.{ℕ, zero, suc, ◌-◌, Str, Option, none, some, [], ◌∷◌, ◌++◌, if◌then◌else◌}
use provider_kit.Message.Mask.{length}
use provider_kit.GoStrings.Utf8.{rune_width}
use provider_kit.GoStrings.{has_prefix}

abbrev width : Option ℕ → ℕ
width none = 1
width (some w) = w

-- With an empty `old`: `new` before every rune, and at the end.
unfoldable pub between_runes : Str → ℕ → Str → Str
unfolding rune_width
between_runes new left [] = new
between_runes new (suc left) (c ∷ s) = c ∷ between_runes new left s
between_runes new zero (c ∷ s) = new ++ c ∷ between_runes new (width (rune_width (c ∷ s)) - 1) s

-- `left` bytes of the last occurrence of `old` are still to be passed over.
unfoldable pub replace_from : Str → Str → ℕ → Str → Str
unfolding has_prefix
replace_from old new left [] = []
replace_from old new (suc left) (c ∷ s) = replace_from old new left s
replace_from old new zero (c ∷ s) =
    let replaced = new ++ replace_from old new (length old - 1) s in
    let kept = c ∷ replace_from old new 0 s in if has_prefix (c ∷ s) old then replaced else kept

unfoldable pub replace_all : Str → Str → Str → Str
unfolding between_runes replace_from
replace_all s [] new = between_runes new 0 s
replace_all s (o ∷ old) new = replace_from (o ∷ old) new 0 s
