-- ===== src/DeepCopy/Objects.antt =====
-- `runtime.Object`, an interface: `nil`, or the pointer to an object of some kind.
use bruk.Prelude.{ℕ, Option, none, some}
use bruk.DeepCopy.Memory.{M, Pointer, pure, ◌>>=◌}

pub data Object : Type 0 where
  a_bruk_model : ℕ → Object
  a_bruk_model_list : ℕ → Object
  a_bruk_tenant : ℕ → Object
  a_bruk_tenant_list : ℕ → Object
  a_inference_service : ℕ → Object
  a_inference_service_list : ℕ → Object

-- A typed `nil` would be an interface that is not `nil`: it is looked for, and `nil` is returned in its place.
abbrev pub as_object : (ℕ → Object) → Pointer → Option Object
as_object kind none = none
as_object kind (some q) = some (kind q)

-- `DeepCopyObject`, over the `DeepCopy` of the kind.
abbrev pub object_of :
    {Cell : Type 0} → (ℕ → Object) → (Pointer → M Cell Pointer) → Pointer → M Cell (Option Object)
object_of kind copy p = do c ← copy p; pure (as_object kind c)
