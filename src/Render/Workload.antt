-- ===== src/Render/Workload.antt =====
-- The rendered Deployment as a whole: when there is one, and what holds of it.
-- `Deployment` of operator/internal/render/render.go.
use bruk.Prelude.{String, List, [], ◌∷◌, ◌++◌, Option, none, some, arith, refl, inl, inr}
use bruk.Prelude.{
  ◌≡◌, ◌≢◌, ◌↔◌, str_eq, str_eq_iff, str_ne, All, Any, here, there, map, Option-cases,
}
use bruk.Prelude.Int.{ℤ}
use bruk.Result.{ok}
use bruk.Platform.{Platform}
use bruk.Kube.Workload.{Volume, Container, Probe, Deployment}
use bruk.Api.BrukModel.{HuggingFaceSource, BrukModel}
use bruk.Api.InferenceService.{InferenceService, WeightsCacheSpec}
use bruk.Render.{Config, runtime_class_name, init_data_annotation, resolve_image, volume_mounts}
use bruk.Render.{models_volume, gai_volume, has_value}
use bruk.Render.{volumes, engine_container, deployment_object, deployment_from, deployment}

-- The texts of a list are pairwise different.
abbrev AreDistinct : List String → Type 0
AreDistinct [] = Unit
AreDistinct (x ∷ xs) = All (λ y. x ≢ y) xs × AreDistinct xs

abbrev ProbesPort : Option Probe → List ℤ → Type 0
ProbesPort none ports = Unit
ProbesPort (some probe) ports = Any (λ p. p ≡ probe.port) ports

-- The volume names that a pod has without a weights cache, and with one.
distinct_names :
    AreDistinct ("dshm" ∷ "trusted-image" ∷ [])
    × AreDistinct ("models" ∷ "dshm" ∷ "gai" ∷ "trusted-image" ∷ [])
unfolding str_eq
distinct_names = (
  ((str_ne "dshm" "trusted-image" refl, tt), (tt, tt)),
  (
    (
      str_ne "models" "dshm" refl,
      (str_ne "models" "gai" refl, (str_ne "models" "trusted-image" refl, tt)),
    ),
    (
      (str_ne "dshm" "gai" refl, (str_ne "dshm" "trusted-image" refl, tt)),
      ((str_ne "gai" "trusted-image" refl, tt), (tt, tt)),
    ),
  ),
)

module _ (K : Platform) where
  abbrev NamesVolume : List (Volume K) → String → Type 0
  NamesVolume vs name = Any (λ v. v.name ≡ name) vs

  -- A container refers to volumes of its pod only, and its probe to one of its own ports.
  pub record IsWired (vs : List (Volume K)) (c : Container K) : Type 0 where
    pub mounts : All (λ m. NamesVolume vs m.name) c.volume_mounts
    pub devices : All (λ m. NamesVolume vs m.name) c.volume_devices
    pub probe : ProbesPort c.readiness_probe c.ports

  -- What the API server and the kubelet require of a Deployment's parts.
  pub record IsConsistent (d : Deployment K) : Type 0 where
    pub selects_own_pods : d.spec.selector ≡ d.spec.template.metadata.labels
    pub wired : All (IsWired d.spec.template.spec.volumes) d.spec.template.spec.containers
    pub distinct : AreDistinct (map (λ v. v.name) d.spec.template.spec.volumes)

  -- What makes the workload confidential: the guest runtime, the initdata blob, the reviewed image
  -- in every container, and one replica that is replaced, never doubled.
  pub record IsConfidential (cfg : Config) (d : Deployment K) : Type 0 where
    pub runtime : d.spec.template.spec.runtime_class_name ≡ some runtime_class_name
    pub init_data :
        d.spec.template.metadata.annotations ≡ (init_data_annotation, cfg.init_data_b64) ∷ []
    pub init_data_set : cfg.init_data_b64 ≢ ""
    pub image_set : cfg.default_image ≢ ""
    pub images : All (λ c. c.image ≡ cfg.default_image) d.spec.template.spec.containers
    pub recreated : d.spec.strategy ≡ "Recreate"

  abbrev IsRendered : InferenceService K → BrukModel K → Config → Deployment K → Type 0
  IsRendered isvc model cfg d =
      (hf : HuggingFaceSource) × (model.spec.source.hugging_face ≡ some hf)
      × (cfg.default_image ≢ "")
      × (cfg.init_data_b64 ≢ "")
      × (d ≡ deployment_object K isvc (engine_container K isvc model hf cfg.default_image) cfg)

  module _ (isvc : InferenceService K) (model : BrukModel K) (cfg : Config) where
    -- The successful renderings, with the object written out.
    pub deployment-IsRendered :
        {d : Deployment K} → deployment K isvc model cfg ≡ ok d → IsRendered isvc model cfg d
    unfolding deployment deployment_from resolve_image
    deployment-IsRendered h =
        ground (arith, str_eq_iff cfg.default_image "", str_eq_iff cfg.init_data_b64 "")

    pub deployment_rendered :
        {hf : HuggingFaceSource}
        → model.spec.source.hugging_face ≡ some hf
        → cfg.default_image ≢ ""
        → cfg.init_data_b64 ≢ ""
        → deployment K isvc model cfg
          ≡ ok (deployment_object K isvc (engine_container K isvc model hf cfg.default_image) cfg)
    unfolding deployment deployment_from resolve_image
    deployment_rendered set image blob =
        ground (arith, str_eq_iff cfg.default_image "", str_eq_iff cfg.init_data_b64 "")

    -- A Deployment is rendered exactly when the model has a source, and the cluster an image and an
    -- initdata blob.
    pub deployment-eq-ok_iff : ((d : Deployment K) × (deployment K isvc model cfg ≡ ok d)) ↔ (
        (model.spec.source.hugging_face ≢ none)
        × (cfg.default_image ≢ "")
        × (cfg.init_data_b64 ≢ ""))
    deployment-eq-ok_iff = (
      λ (d, e).
          let (hf, set, image, blob, same) = deployment-IsRendered e in
          ((λ missing. cc), image, blob),
      λ (source, image, blob). elim (Option-cases model.spec.source.hugging_face) [
        | inl missing ↦ absurd (source missing)
        | inr (hf, set) ↦ (_, deployment_rendered set image blob)
      ],
    )

  mounts_named :
      (cache : Option (WeightsCacheSpec K)) (shm claim : Volume K)
      → shm.name ≡ "dshm"
      → All
          (λ m.
            NamesVolume (models_volume K cache ++ shm ∷ gai_volume K cache ++ claim ∷ []) m.name)
          (volume_mounts (has_value cache))
  unfolding volume_mounts
  mounts_named none shm claim e = (here e, tt)
  mounts_named (some cache) shm claim e =
      (here refl, (there (here e), (there (there (here refl)), tt)))

  devices_named :
      (cache : Option (WeightsCacheSpec K)) (shm claim : Volume K)
      → NamesVolume (models_volume K cache ++ shm ∷ gai_volume K cache ++ claim ∷ []) claim.name
  devices_named none shm claim = there (here refl)
  devices_named (some cache) shm claim = there (there (there (here refl)))

  engine_container-IsWired :
      (isvc : InferenceService K) (model : BrukModel K) (hf : HuggingFaceSource) (image : String)
      → IsWired (volumes K isvc) (engine_container K isvc model hf image)
  unfolding volumes engine_container
  engine_container-IsWired isvc model hf image = record {
    mounts = mounts_named isvc.spec.storage.weights_cache _ _ refl;
    devices = (devices_named isvc.spec.storage.weights_cache _ _, tt);
    probe = here refl;
  }

  volume_names_distinct :
      (cache : Option (WeightsCacheSpec K)) (shm claim : Volume K)
      → shm.name ≡ "dshm"
      → claim.name ≡ "trusted-image"
      → AreDistinct
          (map (λ v. v.name) (models_volume K cache ++ shm ∷ gai_volume K cache ++ claim ∷ []))
  volume_names_distinct none shm claim e f = rw (e, f) distinct_names.0
  volume_names_distinct (some cache) shm claim e f = rw (e, f) distinct_names.1

  module _ (isvc : InferenceService K) (model : BrukModel K) (cfg : Config) {d : Deployment K}
      (h : deployment K isvc model cfg ≡ ok d) where
    -- Every rendered Deployment selects its own pods, its container mounts only volumes of the pod
    -- and is probed on its own port, and the volumes have different names.
    pub deployment-IsConsistent : IsConsistent d
    unfolding deployment_object
    deployment-IsConsistent =
        let (hf, set, image, blob, same) = deployment-IsRendered isvc model cfg h in
        rw same (record {
          selects_own_pods = refl;
          wired = (engine_container-IsWired isvc model hf cfg.default_image, tt);
          distinct =
              unfold volumes in volume_names_distinct isvc.spec.storage.weights_cache _ _ refl refl;
        })

    -- Every rendered Deployment runs under the confidential runtime class, carries the cluster's
    -- initdata blob and image, neither of them empty, and is recreated on an update.
    pub deployment-IsConfidential : IsConfidential cfg d
    unfolding deployment_object engine_container
    deployment-IsConfidential =
        let (hf, set, image, blob, same) = deployment-IsRendered isvc model cfg h in
        rw same (record {
          runtime = refl;
          init_data = refl;
          init_data_set = blob;
          image_set = image;
          images = (refl, tt);
          recreated = refl;
        })
