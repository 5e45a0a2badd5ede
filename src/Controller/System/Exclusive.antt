-- ===== src/Controller/System/Exclusive.antt =====
-- One workload on each trusted store, in every reachable state of the cluster
-- (operator/internal/controller).
use bruk.Platform.{Platform}
use bruk.Client.{Client}
use bruk.Cluster.{View, IsServer, IsExclusive, IsNamed}
use bruk.Controller.Inference.Exclusion.{IsSafe, Shrinks-IsSafe, reconcile-IsSafe}
use bruk.Controller.Model.Quiet.{reconcile_model-Shrinks}
use bruk.Controller.Tenant.Quiet.{reconcile_tenant-Shrinks}
use bruk.Controller.System.{
  Step, reconciled_inference_service, reconciled_bruk_model, reconciled_bruk_tenant, others_wrote,
  Reach, start, later,
}

module _ {K : Platform} {C : Client K} (V : View C) (server : IsServer V) where
  Step-IsSafe : {s t : C.State} → Step V s t → IsSafe V server s → IsSafe V server t
  Step-IsSafe (reconciled_inference_service request log) = reconcile-IsSafe V server request _
  Step-IsSafe (reconciled_bruk_model request log) =
      Shrinks-IsSafe V server (reconcile_model-Shrinks V server request _)
  Step-IsSafe (reconciled_bruk_tenant request log) =
      Shrinks-IsSafe V server (reconcile_tenant-Shrinks V server request _)
  Step-IsSafe (others_wrote p) = Shrinks-IsSafe V server p

  Reach-IsSafe : {s t : C.State} → Reach V s t → IsSafe V server s → IsSafe V server t
  Reach-IsSafe start safe = safe
  Reach-IsSafe (later r step) safe = Step-IsSafe step (Reach-IsSafe r safe)

  -- One workload on each trusted store: from a state in which no two Deployments of a namespace mount
  -- one claim and the Deployments controlled by services have their names, every sequence of runs of
  -- the three reconcilers and of deeds of other writers leads to such a state again. The server behaves
  -- as documented and its lists are up to date when they are made; other writers may act between any
  -- two calls, but for mounting claims in Deployments of theirs and giving Deployments new owners among
  -- the services.
  pub Reach-IsExclusive :
      {s t : C.State} → IsExclusive V s → IsNamed V s → Reach V s t → IsExclusive V t × IsNamed V t
  Reach-IsExclusive exclusive named r = Reach-IsSafe r (exclusive, named)
