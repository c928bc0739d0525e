-- ===== src/Idempotency/Sharing/Copies.antt =====
-- idempotency.go: what cloneSendResult makes of the objects behind a result.
use provider_kit.Base.{◌<◌, ◌≤◌, Str, Option, none, some, [], ◌≡◌, refl, ◌∙◌, arith}
use provider_kit.GoMap.{GoMap, put_all}
use provider_kit.SendResult.{copy_map}
use provider_kit.Idempotency.Sharing.{
  Ref, ErrorObject, copied, ResultObject, Object, result_object, map_object, error_object, Memory,
  alloc, load_map, load_error, load, copy_metadata, copy_error, clone_object,
}

-- The second memory has more objects, and those of the first as they were.
abbrev pub Extends : Memory → Memory → Type 0
Extends m m' = (m.next ≤ m'.next) × ((j : Ref) → j < m.next → m'.objects j ≡ m.objects j)

-- Nil, or a new object.
abbrev pub IsNew : Memory → Memory → Option Ref → Type 0
IsNew m m' none = Unit
IsNew m m' (some r) = (m.next ≤ r) × (r < m'.next)

Extends-trans : (m m₁ m₂ : Memory) → Extends m m₁ → Extends m₁ m₂ → Extends m m₂
Extends-trans m m₁ m₂ (le, same) (le', same') =
    (omega arith, λ j old. same' j (omega arith) ∙ same j old)

alloc-Extends : (o : Object) (m : Memory) → Extends m (alloc o m)
alloc-Extends o m = (omega arith, λ j old. ground arith)

copy_metadata-Extends :
    (g : Option (GoMap Str)) (m : Memory)
    → Extends m (copy_metadata g m).1 × IsNew m (copy_metadata g m).1 (copy_metadata g m).0
unfolding copy_metadata
copy_metadata-Extends none m = ((omega arith, λ j old. refl), tt)
copy_metadata-Extends (some g) m =
    (alloc-Extends (map_object (put_all g [])) m, (omega arith, omega arith))

copy_error-Extends :
    (e : Option ErrorObject) (m : Memory)
    → Extends m (copy_error e m).1 × IsNew m (copy_error e m).1 (copy_error e m).0
unfolding copy_error
copy_error-Extends none m = ((omega arith, λ j old. refl), tt)
copy_error-Extends (some e) m = (alloc-Extends (error_object e) m, (omega arith, omega arith))

IsNew-later :
    (m m₁ m₂ m₃ : Memory) (p : Option Ref)
    → m.next ≤ m₁.next
    → m₂.next ≤ m₃.next
    → IsNew m₁ m₂ p
    → IsNew m m₃ p
IsNew-later m m₁ m₂ m₃ none le le' new = tt
IsNew-later m m₁ m₂ m₃ (some r) le le' new = (omega arith, omega arith)

-- What cloneSendResult makes is new, and the objects that were there stay as they were.
pub record Cloned (m : Memory) (out : ResultObject) (r : Ref) (m' : Memory) : Type 0 where
  pub extends : Extends m m'
  pub struct_new : (m.next ≤ r) × (r < m'.next)
  pub metadata_new : IsNew m m' out.metadata
  pub error_new : IsNew m m' out.error
  pub struct_at : m'.objects r ≡ some (result_object out)

pub clone_object-Cloned :
    (f : ResultObject) (m : Memory)
    → Cloned m (clone_object f m).0 (clone_object f m).1 (clone_object f m).2
unfolding clone_object
clone_object-Cloned f m =
    let (ext, new) = copy_metadata-Extends (load_map m f.metadata) m in
    let m₁ = (copy_metadata (load_map m f.metadata) m).1 in
    let (ext', new') = copy_error-Extends (load_error m f.error) m₁ in
    let m₂ = (copy_error (load_error m f.error) m₁).1 in
    let out : ResultObject = record f {
      metadata = (copy_metadata (load_map m f.metadata) m).0;
      error = (copy_error (load_error m f.error) m₁).0;
    } in
    let m₃ = alloc (result_object out) m₂ in
    let ext'' = alloc-Extends (result_object out) m₂ in
    let both = Extends-trans m m₁ m₂ ext ext' in
    record {
      extends = Extends-trans m m₂ m₃ both ext'';
      struct_new = (both.0, omega arith);
      metadata_new = IsNew-later m m m₁ m₃ out.metadata (omega arith) (omega (arith, ext'.0)) new;
      error_new = IsNew-later m m₁ m₂ m₃ out.error ext.0 (omega arith) new';
      struct_at = ground arith;
    }

-- The loaded copy.
copies-loaded :
    (g : Option (GoMap Str)) (e : Option ErrorObject) (m : Memory) (o : Object)
    → (load_map (alloc o (copy_error e (copy_metadata g m).1).1) (copy_metadata g m).0 ≡ copy_map g)
      × (load_error
            (alloc o (copy_error e (copy_metadata g m).1).1)
            (copy_error e (copy_metadata g m).1).0
          ≡ e)
unfolding copy_metadata copy_error copy_map
copies-loaded none none m o = (refl, refl)
copies-loaded none (some e) m o = (refl, ground arith)
copies-loaded (some g) none m o = (ground arith, refl)
copies-loaded (some g) (some e) m o = (ground arith, ground arith)

-- The view of a clone.
pub clone_object-load :
    (f : ResultObject) (m : Memory)
    → load (clone_object f m).2 (clone_object f m).0 ≡ copied (load m f)
unfolding clone_object
clone_object-load f m =
    let (meta, err) =
      copies-loaded (load_map m f.metadata) (load_error m f.error) m
        (result_object (clone_object f m).0) in
    rw (meta, err)
