-- ===== src/Controller/Tenant/Quiet.antt =====
-- What `Reconcile` of operator/internal/controller/bruktenant_controller.go does to the Deployments.
use bruk.Result.{Result, ok, err}
use bruk.Platform.{Platform}
use bruk.Kube.Meta.{NamespacedName}
use bruk.Api.BrukTenant.{BrukTenant}
use bruk.Client.{Client, World}
use bruk.Cluster.{View, IsServer, Shrinks}
use bruk.Cluster.Shrinks.{Shrinks-refl, Shrinks-trans}
use bruk.Controller.Tenant.{tenant_read, reconcile_tenant}

module _ {K : Platform} {C : Client K} (V : View C) (server : IsServer V) where
  tenant_read-Shrinks :
      (r : Result (BrukTenant K)) (w : World C) → Shrinks V w.state (tenant_read C r w).1.state
  unfolding tenant_read
  tenant_read-Shrinks (err e) w = Shrinks-refl V w.state
  tenant_read-Shrinks (ok tenant) w = server.update_bruk_tenant_status_shrinks _ w.state

  pub reconcile_tenant-Shrinks :
      (request : NamespacedName) (w : World C)
      → Shrinks V w.state (reconcile_tenant C request w).1.state
  unfolding reconcile_tenant
  reconcile_tenant-Shrinks request w =
      Shrinks-trans V (server.get_bruk_tenant_shrinks _ w.state) (tenant_read-Shrinks _ _)
