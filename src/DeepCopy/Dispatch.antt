-- ===== src/DeepCopy/Dispatch.antt =====
-- Objects of every kind (`runtime.Object`, operator/api/v1alpha1/zz_generated.deepcopy.go) and their copies.
pub mod Deep
use bruk.Prelude.{List, Option, none, some}
use bruk.Platform.{Platform}
use bruk.Api.BrukModel.{BrukModel, BrukModelList}
use bruk.Api.BrukTenant.{BrukTenant, BrukTenantList}
use bruk.Api.InferenceService.{InferenceService, InferenceServiceList}
use bruk.DeepCopy.Layout.{Library}
use bruk.DeepCopy.Cells.{
  Cell, stored_bruk_model, stored_bruk_model_list, stored_bruk_tenant, stored_bruk_tenant_list,
  stored_inference_service, stored_inference_service_list,
}
use bruk.DeepCopy.Memory.{M}
use bruk.DeepCopy.Memory.Deep.{see_pointer, ◌>>=◌}
use bruk.DeepCopy.Functions.{Functions, Sight}
use bruk.DeepCopy.Objects.{
  Object, a_bruk_model, a_bruk_model_list, a_bruk_tenant, a_bruk_tenant_list, a_inference_service,
  a_inference_service_list,
}
use bruk.DeepCopy.Model.{bruk_model_object, bruk_model_list_object}
use bruk.DeepCopy.Tenant.{bruk_tenant_object, bruk_tenant_list_object}
use bruk.DeepCopy.Service.{inference_service_object, inference_service_list_object}
use bruk.DeepCopy.See.Model.{
  see_bruk_model, see_bruk_model_list, see_bruk_tenant, see_bruk_tenant_list,
}
use bruk.DeepCopy.See.Service.{see_inference_service, see_inference_service_list}

-- What an object denotes.
pub data Value (K : Platform) : Type 0 where
  value_bruk_model : BrukModel K → Value K
  value_bruk_model_list : BrukModelList K → Value K
  value_bruk_tenant : BrukTenant K → Value K
  value_bruk_tenant_list : BrukTenantList K → Value K
  value_inference_service : InferenceService K → Value K
  value_inference_service_list : InferenceServiceList K → Value K

abbrev pub as_value : {K : Platform} {V : Type 0} → (V → Value K) → Option V → Option (Value K)
as_value kind none = none
as_value kind (some v) = some (kind v)

module _ {L : Library} {K : Platform} where
  module _ (S : Sight L K) where
    abbrev pub see_object : List (Cell L) → Object → Option (Value K)
    see_object h (a_bruk_model p) =
        see_pointer (stored_bruk_model L) (see_bruk_model S) h (some p) >>= λ o.
        as_value value_bruk_model o
    see_object h (a_bruk_model_list p) =
        see_pointer (stored_bruk_model_list L) (see_bruk_model_list S) h (some p) >>= λ o.
        as_value value_bruk_model_list o
    see_object h (a_bruk_tenant p) =
        see_pointer (stored_bruk_tenant L) (see_bruk_tenant S) h (some p) >>= λ o.
        as_value value_bruk_tenant o
    see_object h (a_bruk_tenant_list p) =
        see_pointer (stored_bruk_tenant_list L) (see_bruk_tenant_list S) h (some p) >>= λ o.
        as_value value_bruk_tenant_list o
    see_object h (a_inference_service p) =
        see_pointer (stored_inference_service L) (see_inference_service S) h (some p) >>= λ o.
        as_value value_inference_service o
    see_object h (a_inference_service_list p) =
        see_pointer (stored_inference_service_list L) (see_inference_service_list S) h (some p)
        >>= λ o. as_value value_inference_service_list o

-- The call of `DeepCopyObject` on an interface, which goes to the method of the object's own kind.
pub deep_copy_object : {L : Library} → Functions L → Object → M (Cell L) (Option Object)
unfolding bruk_model_object bruk_model_list_object bruk_tenant_object bruk_tenant_list_object
    inference_service_object inference_service_list_object
deep_copy_object F (a_bruk_model p) = bruk_model_object F (some p)
deep_copy_object F (a_bruk_model_list p) = bruk_model_list_object F (some p)
deep_copy_object F (a_bruk_tenant p) = bruk_tenant_object F (some p)
deep_copy_object F (a_bruk_tenant_list p) = bruk_tenant_list_object F (some p)
deep_copy_object F (a_inference_service p) = inference_service_object F (some p)
deep_copy_object F (a_inference_service_list p) = inference_service_list_object F (some p)
