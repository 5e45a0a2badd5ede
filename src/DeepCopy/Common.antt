-- ===== src/DeepCopy/Common.antt =====
-- operator/api/v1alpha1/zz_generated.deepcopy.go: the copies of the shared structs.
use bruk.Api.Common.{LocalRef, SecretKeyRef, EndpointStatus}
use bruk.DeepCopy.Layout.{Library, ResourcePairLayout}
use bruk.DeepCopy.Cells.{
  Cell, stored_local_ref, stored_secret_key_ref, stored_endpoint_status, stored_resource_pair,
  stored_quantity,
}
use bruk.DeepCopy.Memory.{◌>>=◌, M, Pointer, pure, copy_pointer}
use bruk.DeepCopy.Functions.{Functions}

module _ {L : Library} (F : Functions L) where
  -- `LocalRef.DeepCopyInto`
  unfoldable pub local_ref_into : LocalRef → M (Cell L) LocalRef
  local_ref_into this = pure this

  -- `LocalRef.DeepCopy`
  unfoldable pub local_ref_copy : Pointer → M (Cell L) Pointer
  local_ref_copy = copy_pointer (stored_local_ref L) local_ref_into

  -- `SecretKeyRef.DeepCopyInto`
  unfoldable pub secret_key_ref_into : SecretKeyRef → M (Cell L) SecretKeyRef
  secret_key_ref_into this = pure this

  -- `SecretKeyRef.DeepCopy`
  unfoldable pub secret_key_ref_copy : Pointer → M (Cell L) Pointer
  secret_key_ref_copy = copy_pointer (stored_secret_key_ref L) secret_key_ref_into

  -- `EndpointStatus.DeepCopyInto`
  unfoldable pub endpoint_status_into : EndpointStatus → M (Cell L) EndpointStatus
  endpoint_status_into this = pure this

  -- `EndpointStatus.DeepCopy`
  unfoldable pub endpoint_status_copy : Pointer → M (Cell L) Pointer
  endpoint_status_copy = copy_pointer (stored_endpoint_status L) endpoint_status_into

  -- `ResourcePair.DeepCopyInto`
  unfoldable pub resource_pair_into : ResourcePairLayout L → M (Cell L) (ResourcePairLayout L)
  resource_pair_into this = do
    limit ← F.quantity_into this.limit
    request ← copy_pointer (stored_quantity L) F.quantity_into this.request
    pure (record this { limit = limit; request = request })

  -- `ResourcePair.DeepCopy`
  unfoldable pub resource_pair_copy : Pointer → M (Cell L) Pointer
  resource_pair_copy = copy_pointer (stored_resource_pair L) resource_pair_into
