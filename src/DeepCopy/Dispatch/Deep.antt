-- ===== src/DeepCopy/Dispatch/Deep.antt =====
-- `DeepCopyObject` of operator/api/v1alpha1/zz_generated.deepcopy.go.
use bruk.Prelude.{ℕ, List, ◌++◌, Option, none, some, ◌≡◌, refl, sym, ◌∙◌, ap}
use mathlib.Core.Option.{some-injective}
use bruk.Platform.{Platform}
use bruk.DeepCopy.Layout.{Library}
use bruk.DeepCopy.Cells.{
  Cell, stored_bruk_model, stored_bruk_model_list, stored_bruk_tenant, stored_bruk_tenant_list,
  stored_inference_service, stored_inference_service_list,
}
use bruk.DeepCopy.Memory.{M, Pointer, size}
use bruk.DeepCopy.Memory.Deep.{IsDeep, see_pointer, ◌>>=◌, bind-eq-some}
use bruk.DeepCopy.Functions.{Functions, Sight, IsLibrary}
use bruk.DeepCopy.Objects.{
  Object, object_of, a_bruk_model, a_bruk_model_list, a_bruk_tenant, a_bruk_tenant_list,
  a_inference_service, a_inference_service_list,
}
use bruk.DeepCopy.Dispatch.{
  Value, as_value, see_object, deep_copy_object, value_bruk_model, value_bruk_model_list,
  value_bruk_tenant, value_bruk_tenant_list, value_inference_service, value_inference_service_list,
}
use bruk.DeepCopy.Structs
use bruk.DeepCopy.Laws.Structs.{copy_struct-IsDeep}
use bruk.DeepCopy.Model.{
  bruk_model_copy, bruk_model_object, bruk_model_list_copy, bruk_model_list_object,
}
use bruk.DeepCopy.Tenant.{
  bruk_tenant_copy, bruk_tenant_object, bruk_tenant_list_copy, bruk_tenant_list_object,
}
use bruk.DeepCopy.Service.{
  inference_service_copy, inference_service_object, inference_service_list_copy,
  inference_service_list_object,
}
use bruk.DeepCopy.See.Model.{
  see_bruk_model, see_bruk_model_list, see_bruk_tenant, see_bruk_tenant_list,
}
use bruk.DeepCopy.See.Service.{see_inference_service, see_inference_service_list}

module _ {L : Library} {K : Platform} {V : Type 0} (kind : ℕ → Object) (value : V → Value K)
    (see : List (Cell L) → Pointer → Option (Option V)) (copy : Pointer → M (Cell L) Pointer)
    (nil_seen : (h : List (Cell L)) → see h none ≡ some none) where
  abbrev see_one : List (Cell L) → ℕ → Option (Value K)
  see_one h p = see h (some p) >>= λ o. as_value value o

  abbrev Copied : (h g : List (Cell L)) (p : ℕ) (v : Value K) → Type 0
  Copied h g p v =
      (q : ℕ) × (new : List (Cell L)) × (object_of kind copy (some p) h
        ≡ some (some (kind q), h ++ new))
      × (see_one (g ++ new) q ≡ some v)
      × ((other : List (Cell L)) → see_one (h ++ other) p ≡ some v)

  -- The copy of a pointer that is not nil is no nil.
  made_object :
      (h g new : List (Cell L)) (p : ℕ) (v : Value K) (o : Option V) (q : Pointer)
      → copy (some p) h ≡ some (q, h ++ new)
      → see (g ++ new) q ≡ some o
      → as_value value o ≡ some v
      → ((other : List (Cell L)) → see (h ++ other) (some p) ≡ some o)
      → Copied h g p v
  made_object h g new p v o none ran seen made kept =
      let empty : none ≡ o = some-injective _ _ (sym (nil_seen (g ++ new)) ∙ seen) in
      let no : none ≡ some v = ap (as_value value) empty ∙ made in cc
  made_object h g new p v o (some q) ran seen made kept =
      (q, new, rw ran refl, rw seen made, λ other. rw (kept other) made)

  copy-Copied :
      IsDeep see copy
      → (h g : List (Cell L)) (p : ℕ) (v : Value K) → see_one h p ≡ some v
      → size g ≡ size h
      → Copied h g p v
  copy-Copied deep h g p v seen same =
      let (o, seen_o, made) = bind-eq-some (see h (some p)) _ v seen in
      let (q, new, ran, holds) = deep.copies h (some p) o seen_o in
      made_object h g new p v o q ran (holds g same) made
        (λ other. deep.grows h other (some p) o seen_o)

-- DeepCopyObject, called on an object of any kind that denotes a value, ends without a fault and returns an
-- object of the same kind, which is never nil, in new cells. It denotes the same value, whatever is
-- written to the old cells, and the original does whatever is written to the new ones; the copies
-- that apimachinery makes of its own types are deep.
pub deep_copy_object-independent :
    {L : Library} {K : Platform} {F : Functions L} {S : Sight L K}
    → IsLibrary F S
    → (h g : List (Cell L)) (object : Object) (v : Value K) → see_object S h object ≡ some v
    → size g ≡ size h
    → (copy : Object) × (new : List (Cell L)) × (deep_copy_object F object h
        ≡ some (some copy, h ++ new))
      × (see_object S (g ++ new) copy ≡ some v)
      × ((other : List (Cell L)) → see_object S (h ++ other) object ≡ some v)
unfolding deep_copy_object see_pointer bruk_model_object bruk_model_list_object bruk_tenant_object
    bruk_tenant_list_object inference_service_object inference_service_list_object
deep_copy_object-independent {L} {F = F} {S} law h g (a_bruk_model p) v seen same =
    let (q, new, ran, holds, kept) =
      copy-Copied a_bruk_model value_bruk_model
        (see_pointer (stored_bruk_model L) (see_bruk_model S)) (bruk_model_copy F) (λ h. refl)
        (copy_struct-IsDeep law Structs.of_bruk_model) h g p v seen same in
    (a_bruk_model q, new, ran, holds, kept)
deep_copy_object-independent {L} {F = F} {S} law h g (a_bruk_model_list p) v seen same =
    let (q, new, ran, holds, kept) =
      copy-Copied a_bruk_model_list value_bruk_model_list
        (see_pointer (stored_bruk_model_list L) (see_bruk_model_list S)) (bruk_model_list_copy F)
        (λ h. refl) (copy_struct-IsDeep law Structs.of_bruk_model_list) h g p v seen same in
    (a_bruk_model_list q, new, ran, holds, kept)
deep_copy_object-independent {L} {F = F} {S} law h g (a_bruk_tenant p) v seen same =
    let (q, new, ran, holds, kept) =
      copy-Copied a_bruk_tenant value_bruk_tenant
        (see_pointer (stored_bruk_tenant L) (see_bruk_tenant S)) (bruk_tenant_copy F) (λ h. refl)
        (copy_struct-IsDeep law Structs.of_bruk_tenant) h g p v seen same in
    (a_bruk_tenant q, new, ran, holds, kept)
deep_copy_object-independent {L} {F = F} {S} law h g (a_bruk_tenant_list p) v seen same =
    let (q, new, ran, holds, kept) =
      copy-Copied a_bruk_tenant_list value_bruk_tenant_list
        (see_pointer (stored_bruk_tenant_list L) (see_bruk_tenant_list S)) (bruk_tenant_list_copy F)
        (λ h. refl) (copy_struct-IsDeep law Structs.of_bruk_tenant_list) h g p v seen same in
    (a_bruk_tenant_list q, new, ran, holds, kept)
deep_copy_object-independent {L} {F = F} {S} law h g (a_inference_service p) v seen same =
    let (q, new, ran, holds, kept) =
      copy-Copied a_inference_service value_inference_service
        (see_pointer (stored_inference_service L) (see_inference_service S))
        (inference_service_copy F) (λ h. refl) (copy_struct-IsDeep law Structs.of_inference_service)
        h g p v seen same in
    (a_inference_service q, new, ran, holds, kept)
deep_copy_object-independent {L} {F = F} {S} law h g (a_inference_service_list p) v seen same =
    let (q, new, ran, holds, kept) =
      copy-Copied a_inference_service_list value_inference_service_list
        (see_pointer (stored_inference_service_list L) (see_inference_service_list S))
        (inference_service_list_copy F) (λ h. refl)
        (copy_struct-IsDeep law Structs.of_inference_service_list) h g p v seen same in
    (a_inference_service_list q, new, ran, holds, kept)
