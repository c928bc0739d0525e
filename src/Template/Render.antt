-- ===== src/Template/Render.antt =====
-- template.go: Render against the substitution that it stands for.
use provider_kit.Base.{
  suc, ◌-◌, Str, bytes, ◌==◌, ==_iff, ==_refl, Bool-cases, true, false, Option, none, some, List,
  [], ◌∷◌, ◌++◌, ◌≡◌, ◌≢◌, refl, sym, ap, subst, ◌∙◌, inl, inr, arith, if◌then◌else◌,
}
use mathlib.Core.List.{append_assoc}
use provider_kit.GoMap.{GoMap, get}
use provider_kit.GoStrings.{has_prefix}
use provider_kit.GoStrings.Replace.{replace_from, replace_all}
use provider_kit.Message.Mask.{length}
use provider_kit.Errors.{nil}
use provider_kit.Template.{new_simple_template_renderer, replace_params, render}

-- A template: text, and variables in double braces.
pub data Piece : Type 0 where
  text : Str → Piece
  var : Str → Piece

-- A text without opening braces, and a key without braces.
abbrev pub IsPlain : Str → Type 0
IsPlain [] = Unit
IsPlain (c ∷ s) = (c ≢ b'{') × IsPlain s

abbrev pub IsKey : Str → Type 0
IsKey [] = Unit
IsKey (c ∷ s) = (c ≢ b'{') × (c ≢ b'}') × IsKey s

abbrev pub IsTemplate : List Piece → Type 0
IsTemplate [] = Unit
IsTemplate (text t ∷ pieces) = IsPlain t × IsTemplate pieces
IsTemplate (var k ∷ pieces) = IsKey k × IsTemplate pieces

abbrev pub written : List Piece → Str
written [] = []
written (text t ∷ pieces) = t ++ written pieces
written (var k ∷ pieces) = b'{' ∷ b'{' ∷ (k ++ b'}' ∷ b'}' ∷ written pieces)

abbrev placeholder : Str → Str
placeholder k = b'{' ∷ b'{' ∷ (k ++ b'}' ∷ b'}' ∷ [])

abbrev put_one : Str → Str → List Piece → List Piece
put_one k v [] = []
put_one k v (text t ∷ pieces) = text t ∷ put_one k v pieces
put_one k v (var j ∷ pieces) = (if j == k then text v else var j) ∷ put_one k v pieces

-- The values of the variables that the map has.
abbrev value_or_var : Str → Option Str → Piece
value_or_var j none = var j
value_or_var j (some v) = text v

abbrev pub filled : GoMap Str → List Piece → List Piece
filled params [] = []
filled params (text t ∷ pieces) = text t ∷ filled params pieces
filled params (var j ∷ pieces) = value_or_var j (get j params) ∷ filled params pieces

has_prefix-key :
    (j k s : Str)
    → IsKey j
    → IsKey k
    → has_prefix (j ++ b'}' ∷ b'}' ∷ s) (k ++ b'}' ∷ b'}' ∷ []) ≡ (j == k)
unfolding has_prefix ◌==◌
has_prefix-key [] [] s a b = refl
has_prefix-key [] (d ∷ k) s a b = ground arith
has_prefix-key (c ∷ j) [] s a b = ground arith
has_prefix-key (c ∷ j) (d ∷ k) s a b = ground (arith, has_prefix-key j k s a.2 b.2)

module _ (tail v : Str) where
  abbrev old : Str
  old = b'{' ∷ b'{' ∷ tail

  -- Text without opening braces is kept.
  replace_from-plain :
      (t s : Str) → IsPlain t → replace_from old v 0 (t ++ s) ≡ t ++ replace_from old v 0 s
  unfolding replace_from
  replace_from-plain [] s plain = refl
  replace_from-plain (c ∷ t) s plain = ground (arith, replace_from-plain t s plain.1)

  -- The rest of an occurrence is passed over.
  replace_from-skip : (a s : Str) → replace_from old v (length a) (a ++ s) ≡ replace_from old v 0 s
  unfolding replace_from
  replace_from-skip [] s = refl
  replace_from-skip (c ∷ a) s = replace_from-skip a s

IsKey-IsPlain : (k : Str) → IsKey k → IsPlain k
IsKey-IsPlain [] key = tt
IsKey-IsPlain (c ∷ k) key = (key.0, IsKey-IsPlain k key.2)

-- A match does not begin at the second brace of a variable.
has_prefix_inner :
    (tail j s : Str)
    → IsKey j
    → has_prefix (b'{' ∷ (j ++ b'}' ∷ b'}' ∷ s)) (b'{' ∷ b'{' ∷ tail) ≡ false
unfolding has_prefix
has_prefix_inner tail [] s key = refl
has_prefix_inner tail (c ∷ j) s key = ground arith

replace_from-same :
    (k v s : Str)
    → IsKey k
    → replace_from (placeholder k) v 0 (b'{' ∷ b'{' ∷ (k ++ b'}' ∷ b'}' ∷ s))
      ≡ v ++ replace_from (placeholder k) v 0 s
unfolding replace_from
replace_from-same k v s key =
    let found : has_prefix (b'{' ∷ b'{' ∷ (k ++ b'}' ∷ b'}' ∷ s)) (placeholder k) ≡ true =
      unfold has_prefix in has_prefix-key k k s key key ∙ ==_refl k in
    let passed = replace_from-skip (k ++ b'}' ∷ b'}' ∷ []) v (b'{' ∷ (k ++ b'}' ∷ b'}' ∷ [])) s in
    let left : suc (suc (length (k ++ b'}' ∷ b'}' ∷ []))) - 1
        ≡ suc (length (k ++ b'}' ∷ b'}' ∷ [])) =
      omega arith in
    rw (found, left, ← passed, append_assoc k (b'}' ∷ b'}' ∷ []) s)

replace_from-other :
    (j k v s : Str)
    → IsKey j
    → IsKey k
    → (j == k) ≡ false
    → replace_from (placeholder k) v 0 (b'{' ∷ b'{' ∷ (j ++ b'}' ∷ b'}' ∷ s))
      ≡ b'{' ∷ b'{' ∷ (j ++ b'}' ∷ b'}' ∷ replace_from (placeholder k) v 0 s)
unfolding replace_from
replace_from-other j k v s key key' other =
    let first : has_prefix (b'{' ∷ b'{' ∷ (j ++ b'}' ∷ b'}' ∷ s)) (placeholder k) ≡ false =
      unfold has_prefix in has_prefix-key j k s key key' ∙ other in
    let second = has_prefix_inner (k ++ b'}' ∷ b'}' ∷ []) j s key in
    rw (
      first,
      second,
      replace_from-plain (k ++ b'}' ∷ b'}' ∷ []) v j (b'}' ∷ b'}' ∷ s) (IsKey-IsPlain j key),
    )

-- One parameter of the loop.
replace_all-written :
    (k v : Str) (pieces : List Piece)
    → IsTemplate pieces
    → IsKey k
    → replace_all (written pieces) (placeholder k) v ≡ written (put_one k v pieces)
unfolding replace_all
replace_all-written k v [] plain key = refl
replace_all-written k v (text t ∷ pieces) plain key =
    replace_from-plain (k ++ b'}' ∷ b'}' ∷ []) v t (written pieces) plain.0
    ∙ ap (λ s. t ++ s) (replace_all-written k v pieces plain.1 key)
replace_all-written k v (var j ∷ pieces) plain key =
    let rest = replace_all-written k v pieces plain.1 key in
    elim (Bool-cases (j == k)) [
      | inl same ↦
          subst
            (λ i.
              replace_from (placeholder k) v 0 (written (var i ∷ pieces))
              ≡ v ++ replace_from (placeholder k) v 0 (written pieces))
            (sym ((==_iff j k).0 same)) (replace_from-same k v (written pieces) key)
          ∙ ap (λ s. v ++ s) rest
          ∙ rw same
      | inr other ↦
          replace_from-other j k v (written pieces) plain.0 key other
          ∙ ap (λ s. b'{' ∷ b'{' ∷ (j ++ b'}' ∷ b'}' ∷ s)) rest
          ∙ rw other
    ]

-- What put_one gives is a template again.
put_one-IsTemplate :
    (k v : Str) (pieces : List Piece)
    → IsPlain v
    → IsTemplate pieces
    → IsTemplate (put_one k v pieces)
put_one-IsTemplate k v [] plain ok = tt
put_one-IsTemplate k v (text t ∷ pieces) plain ok = (ok.0, put_one-IsTemplate k v pieces plain ok.1)
put_one-IsTemplate k v (var j ∷ pieces) plain ok = elim (Bool-cases (j == k)) [
  | inl same ↦ rw same (plain, put_one-IsTemplate k v pieces plain ok.1)
  | inr other ↦ rw other (ok.0, put_one-IsTemplate k v pieces plain ok.1)
]

-- Keys without braces, values without opening braces.
abbrev pub ArePlain : GoMap Str → Type 0
ArePlain [] = Unit
ArePlain ((k, v) ∷ params) = IsKey k × IsPlain v × ArePlain params

==_comm : (j k : Str) → (k == j) ≡ (j == k)
unfolding ◌==◌
==_comm [] [] = refl
==_comm [] (d ∷ k) = refl
==_comm (c ∷ j) [] = refl
==_comm (c ∷ j) (d ∷ k) = ground (arith, ==_comm j k)

filled-put_one :
    (k v : Str) (params : GoMap Str) (pieces : List Piece)
    → filled params (put_one k v pieces) ≡ filled ((k, v) ∷ params) pieces
unfolding get
filled-put_one k v params [] = refl
filled-put_one k v params (text t ∷ pieces) =
    ap (λ ps. text t ∷ ps) (filled-put_one k v params pieces)
filled-put_one k v params (var j ∷ pieces) = elim (Bool-cases (j == k)) [
  | inl same ↦ rw (==_comm j k, same) (ap (λ ps. text v ∷ ps) (filled-put_one k v params pieces))
  | inr other ↦
      rw (==_comm j k, other)
        (ap (λ ps. value_or_var j (get j params) ∷ ps) (filled-put_one k v params pieces))
]

filled-nil : (pieces : List Piece) → filled [] pieces ≡ pieces
unfolding get
filled-nil [] = refl
filled-nil (text t ∷ pieces) = ap (λ ps. text t ∷ ps) (filled-nil pieces)
filled-nil (var j ∷ pieces) = ap (λ ps. var j ∷ ps) (filled-nil pieces)

replace_params-written :
    (params : GoMap Str) (pieces : List Piece)
    → IsTemplate pieces
    → ArePlain params
    → replace_params new_simple_template_renderer (written pieces) params
      ≡ written (filled params pieces)
unfolding replace_params new_simple_template_renderer bytes
replace_params-written [] pieces ok plain = ap written (sym (filled-nil pieces))
replace_params-written ((k, v) ∷ params) pieces ok plain =
    rw (replace_all-written k v pieces ok plain.0) (
      replace_params-written params (put_one k v pieces) (put_one-IsTemplate k v pieces plain.1 ok)
        plain.2
      ∙ ap written (filled-put_one k v params pieces))

-- Render with the delimiters {{ and }} replaces every variable of a template that the map has by its
-- value, leaves the others as they are written, and keeps the text, in whatever order the map is
-- ranged over: the result depends on the map only through its lookups. (The keys have no braces, and
-- the texts and the values have no opening brace.)
pub render-written :
    (params : GoMap Str) (pieces : List Piece)
    → IsTemplate pieces
    → ArePlain params
    → render new_simple_template_renderer (written pieces) (some params)
      ≡ (written (filled params pieces), nil)
unfolding render
render-written params pieces ok plain = rw (replace_params-written params pieces ok plain)
