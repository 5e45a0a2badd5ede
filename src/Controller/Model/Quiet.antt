-- ===== src/Controller/Model/Quiet.antt =====
-- What `Reconcile` of operator/internal/controller/brukmodel_controller.go does to the Deployments.
use bruk.Prelude.{Option, none, some, Bool-cases, inl, inr}
use bruk.Result.{Result, ok, err, is_not_found}
use bruk.Platform.{Platform}
use bruk.Kube.Meta.{NamespacedName}
use bruk.Kube.Workload.{Secret}
use bruk.Api.Common.{SecretKeyRef}
use bruk.Api.BrukModel.{HuggingFaceSource, BrukModel}
use bruk.Client.{Client, World}
use bruk.Cluster.{View, IsServer, Shrinks}
use bruk.Cluster.Shrinks.{Shrinks-refl, Shrinks-trans}
use bruk.Controller.Model.{
  Verdict, set_ready, secret_read, token_checked, source_checked, model_read, reconcile_model,
}

module _ {K : Platform} {C : Client K} (V : View C) (server : IsServer V) where
  set_ready-Shrinks :
      (model : BrukModel K) (verdict : Verdict) (w : World C)
      → Shrinks V w.state (set_ready C model verdict w).1.state
  unfolding set_ready
  set_ready-Shrinks model verdict w = server.update_bruk_model_status_shrinks _ w.state

  secret_read-Shrinks :
      (model : BrukModel K) (hf : HuggingFaceSource) (ref : SecretKeyRef) (r : Result (Secret K))
      (w : World C)
      → Shrinks V w.state (secret_read C model hf ref r w).1.state
  unfolding secret_read
  secret_read-Shrinks model hf ref (ok secret) w = set_ready-Shrinks model _ w
  secret_read-Shrinks model hf ref (err e) w = elim (Bool-cases (is_not_found e)) [
    | inl missing ↦ rw missing (set_ready-Shrinks model _ w)
    | inr broken ↦ rw broken (Shrinks-refl V w.state)
  ]

  token_checked-Shrinks :
      (model : BrukModel K) (hf : HuggingFaceSource) (o : Option SecretKeyRef) (w : World C)
      → Shrinks V w.state (token_checked C model hf o w).1.state
  unfolding token_checked
  token_checked-Shrinks model hf none w = set_ready-Shrinks model _ w
  token_checked-Shrinks model hf (some ref) w =
      Shrinks-trans V (server.get_secret_shrinks _ w.state) (secret_read-Shrinks model hf ref _ _)

  source_checked-Shrinks :
      (model : BrukModel K) (o : Option HuggingFaceSource) (w : World C)
      → Shrinks V w.state (source_checked C model o w).1.state
  unfolding source_checked
  source_checked-Shrinks model none w = set_ready-Shrinks model _ w
  source_checked-Shrinks model (some hf) w = token_checked-Shrinks model hf hf.token_secret_ref w

  model_read-Shrinks :
      (r : Result (BrukModel K)) (w : World C) → Shrinks V w.state (model_read C r w).1.state
  unfolding model_read
  model_read-Shrinks (err e) w = Shrinks-refl V w.state
  model_read-Shrinks (ok model) w = source_checked-Shrinks model model.spec.source.hugging_face w

  pub reconcile_model-Shrinks :
      (request : NamespacedName) (w : World C)
      → Shrinks V w.state (reconcile_model C request w).1.state
  unfolding reconcile_model
  reconcile_model-Shrinks request w =
      Shrinks-trans V (server.get_bruk_model_shrinks _ w.state) (model_read-Shrinks _ _)
