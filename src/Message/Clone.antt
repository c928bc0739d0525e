-- ===== src/Message/Clone.antt =====
-- message.go: Clone copies every field and the contents of both maps.
use mathlib.Core.List.{append_assoc, append-nil}
use provider_kit.Base.{
  Str, ==_iff, Option, none, some, [], ◌∷◌, ◌++◌, ◌≡◌, refl, ap, sym, ◌∙◌, arith,
}
use provider_kit.GoMap.{GoMap, get, put, put_all}
use provider_kit.GoMap.Unique.{Unique}
use provider_kit.SendResult.{copy_map}
use provider_kit.Message.{Message, clone}

module _ {V : Type 0} where
  -- A key that a map lacks is added at the end.
  put-append : (k : Str) (v : V) (m : GoMap V) → get k m ≡ none → put k v m ≡ m ++ (k, v) ∷ []
  unfolding put get
  put-append k v [] h = refl
  put-append k v ((j, w) ∷ m) h = ground (arith, put-append k v m)

  get-append_none :
      (j : Str) (m n : GoMap V) → get j m ≡ none → get j n ≡ none → get j (m ++ n) ≡ none
  unfolding get
  get-append_none j [] n h k = k
  get-append_none j ((i, w) ∷ m) n h k = ground (arith, get-append_none j m n)

  abbrev AreMissing : GoMap V → GoMap V → Type 0
  AreMissing [] m = Unit
  AreMissing ((k, v) ∷ src) m = (get k m ≡ none) × AreMissing src m

  AreMissing-snoc :
      (src m : GoMap V) (k : Str) (v : V)
      → AreMissing src m
      → get k src ≡ none
      → AreMissing src (m ++ (k, v) ∷ [])
  unfolding get
  AreMissing-snoc [] m k v h g = tt
  AreMissing-snoc ((j, w) ∷ src) m k v h g = ground (
    arith,
    ==_iff j k,
    ==_iff k j,
    get-append_none j m ((k, v) ∷ []),
    AreMissing-snoc src m k v h.1,
  )

  put_all-append :
      (src dst : GoMap V) → Unique src → AreMissing src dst → put_all src dst ≡ dst ++ src
  unfolding put_all
  put_all-append [] dst u h = sym (append-nil dst)
  put_all-append ((k, v) ∷ src) dst u h = rw (put-append k v dst h.0) (
      put_all-append src (dst ++ (k, v) ∷ []) u.1 (AreMissing-snoc src dst k v h.1 u.0)
      ∙ append_assoc dst ((k, v) ∷ []) src)

  AreMissing-empty : (src : GoMap V) → AreMissing src []
  unfolding get
  AreMissing-empty [] = tt
  AreMissing-empty ((k, v) ∷ src) = (refl, AreMissing-empty src)

-- A map that is not nil holds each key once.
abbrev pub IsMap : Option (GoMap Str) → Type 0
IsMap none = Unit
IsMap (some m) = Unique m

pub copy_map_lem : (m : Option (GoMap Str)) → IsMap m → copy_map m ≡ m
unfolding copy_map
copy_map_lem none u = refl
copy_map_lem (some m) u = ap some (put_all-append m [] u (AreMissing-empty m))

-- The clone of a message has its fields, its parameters and its metadata: nil maps stay nil, and a
-- map's copy has its entries. The clone of nil is nil.
pub clone_lem :
    (m : Message)
    → IsMap m.params
    → IsMap m.metadata
    → (clone (some m) ≡ some m) × (clone none ≡ none)
unfolding clone
clone_lem m p q = (rw (copy_map_lem m.params p, copy_map_lem m.metadata q), refl)
