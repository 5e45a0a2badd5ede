-- ===== src/Controller/Tenant/Laws.antt =====
-- What a reconcile of the tenant writes.
use bruk.Prelude.{String, ◌∷◌, ◌≡◌, ◌↔◌, refl, str_eq}
use bruk.Result.{Result, ok, err}
use bruk.Platform.{Platform}
use bruk.Kube.Condition.{ConditionStatus, condition_true, condition_status}
use bruk.Kube.Meta.{NamespacedName}
use bruk.Api.BrukTenant.{BrukTenant}
use bruk.Render.{init_data_hash}
use bruk.Client.{Client, World, updated_bruk_tenant_status, got_bruk_tenant}
use bruk.Controller.Status.Honest.{KeepsConditions}
use bruk.Controller.Tenant.{
  validate_init_data, tenant_verdict, validated_tenant, tenant_read, reconcile_tenant,
}

verdict_iff : (r : Result (Unit {0})) → ((tenant_verdict r).0 ≡ condition_true) ↔ (r ≡ ok tt)
verdict_iff (ok u) = (λ _. refl, λ _. refl)
verdict_iff (err e) = (λ p. cc, λ p. cc)

module _ {K : Platform} where
  abbrev pub tenant_shows : BrukTenant K → String → ConditionStatus
  tenant_shows tenant t = condition_status tenant.status.conditions t

  -- A status that says of the blob in the spec whether it is valid, and which one it was.
  pub record IsValidated (tenant written : BrukTenant K) : Type 0 where
    pub ready_iff :
        (tenant_shows written "Ready" ≡ condition_true)
        ↔ (validate_init_data tenant.spec.confidential.init_data_b64 ≡ ok tt)
    pub hash :
        written.status.applied_init_data_hash
        ≡ init_data_hash K tenant.spec.confidential.init_data_b64
    pub observed : written.status.observed_generation ≡ tenant.metadata.generation
    pub same_spec : written.spec ≡ tenant.spec

  validated_tenant-IsValidated :
      KeepsConditions K → (tenant : BrukTenant K) → IsValidated tenant (validated_tenant K tenant)
  unfolding validated_tenant str_eq
  validated_tenant-IsValidated law tenant = record {
    ready_iff = rw law.find-set (verdict_iff _);
    hash = refl;
    observed = refl;
    same_spec = refl;
  }

  -- If SetStatusCondition replaces or adds the condition of its type and leaves the others, a
  -- reconcile of a tenant that is there makes two calls, the read and one status update, and what
  -- it writes has Ready True exactly if the blob is valid, the hash of the blob, the generation
  -- that was read, and the same spec.
  pub reconcile_tenant-IsValidated :
      KeepsConditions K
      → (C : Client K) (request : NamespacedName) (w : World C) (tenant : BrukTenant K)
      → (C.get_bruk_tenant request w.state).0 ≡ ok tenant
      → (written : BrukTenant K) × ((reconcile_tenant C request w).1.log
          ≡ updated_bruk_tenant_status written ∷ got_bruk_tenant request ∷ w.log)
        × IsValidated tenant written
  unfolding reconcile_tenant tenant_read
  reconcile_tenant-IsValidated law C request w tenant got =
      rw got (validated_tenant K tenant, refl, validated_tenant-IsValidated law tenant)
