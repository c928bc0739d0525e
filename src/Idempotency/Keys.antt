-- ===== src/Idempotency/Keys.antt =====
-- idempotency.go: buildCacheKey, on a store that several providers share.
use mathlib.Core.List.{append_assoc}
use provider_kit.Base.{Str, bytes, [], ◌∷◌, ◌++◌, ◌≡◌, ◌≢◌, sym, ◌∙◌, arith}
use provider_kit.Provider.{Provider}
use provider_kit.Idempotency.{build_cache_key}

abbrev pub NoColon : Str → Type 0
NoColon [] = Unit
NoColon (c ∷ s) = (c ≢ b':') × NoColon s

prefix_injective : (a x y : Str) → a ++ x ≡ a ++ y → x ≡ y
prefix_injective [] x y h = h
prefix_injective (c ∷ a) x y h = prefix_injective a x y (cc)

split_injective :
    (a b x y : Str) → NoColon a → NoColon b → a ++ b':' ∷ x ≡ b ++ b':' ∷ y → (a ≡ b) × (x ≡ y)
split_injective [] [] x y p q h = ground arith
split_injective [] (c ∷ b) x y p q h = ground arith
split_injective (c ∷ a) [] x y p q h = ground arith
split_injective (c ∷ a) (d ∷ b) x y p q h = ground (arith, split_injective a b x y p.1 q.1)

key_parts :
    {W : Type 0} (p : Provider W) (key : Str)
    → build_cache_key p key ≡ bytes "idem:" ++ (p.channel ++ b':' ∷ key)
unfolding build_cache_key bytes
key_parts p key = simp append_assoc

-- Two providers that share a store, on channels without a colon, use the same cache key only if
-- both the channel and the idempotency key are the same: sends on different channels, or with
-- different keys, are never taken for one another.
pub build_cache_key_injective :
    {V W : Type 0} (p : Provider V) (q : Provider W) (key key' : Str)
    → NoColon p.channel
    → NoColon q.channel
    → build_cache_key p key ≡ build_cache_key q key'
    → (p.channel ≡ q.channel) × (key ≡ key')
build_cache_key_injective p q key key' np nq h =
    split_injective p.channel q.channel key key' np nq
      (prefix_injective (bytes "idem:") _ _ (sym (key_parts p key) ∙ h ∙ key_parts q key'))
