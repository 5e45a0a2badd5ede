-- ===== src/Controller/System.antt =====
-- The operator in a cluster (operator/internal/controller): the runs of the three reconcilers one after
-- the other, in any order and for any requests, and other writers between and during them.
pub mod Exclusive
use bruk.Prelude.{List}
use bruk.Platform.{Platform}
use bruk.Kube.Meta.{NamespacedName}
use bruk.Client.{Client, Call, World}
use bruk.Cluster.{View, Shrinks}
use bruk.Controller.Inference.{reconcile}
use bruk.Controller.Model.{reconcile_model}
use bruk.Controller.Tenant.{reconcile_tenant}

module _ {K : Platform} (C : Client K) where
  -- A run starts in a state, with the log of the operator so far.
  abbrev pub from : C.State → List (Call K) → World C
  from s log = record { state = s; log = log }

module _ {K : Platform} {C : Client K} (V : View C) where
  pub data Step (s : C.State) : C.State → Type 0 where
    reconciled_inference_service :
        (request : NamespacedName) (log : List (Call K))
        → Step s (reconcile C request (from C s log)).1.state
    reconciled_bruk_model :
        (request : NamespacedName) (log : List (Call K))
        → Step s (reconcile_model C request (from C s log)).1.state
    reconciled_bruk_tenant :
        (request : NamespacedName) (log : List (Call K))
        → Step s (reconcile_tenant C request (from C s log)).1.state
    others_wrote : {t : C.State} → Shrinks V s t → Step s t

  pub data Reach (s : C.State) : C.State → Type 0 where
    start : Reach s s
    later : {t u : C.State} → Reach s t → Step t u → Reach s u
