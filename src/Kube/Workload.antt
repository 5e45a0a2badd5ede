-- ===== src/Kube/Workload.antt =====
-- Pods, Deployments, Services, ConfigMaps and Secrets, with the fields that the operator uses.
use bruk.Prelude.{ℕ, String, List, Option}
use bruk.Prelude.Int.{ℤ}
use bruk.Platform.{Platform}
use bruk.Kube.Condition.{ConditionStatus}
use bruk.Kube.Meta.{TypeMeta, ObjectMeta}

pub record SecretKeySelector : Type 0 where
  pub name : String
  pub key : String

-- `corev1.EnvVar`: a literal value, or a reference into a Secret.
pub record EnvVar : Type 0 where
  pub name : String
  pub value : String
  pub value_from : Option SecretKeySelector

pub record VolumeMount : Type 0 where
  pub name : String
  pub mount_path : String
  pub sub_path : String

pub record VolumeDevice : Type 0 where
  pub name : String
  pub device_path : String

-- `corev1.Probe` with an HTTP handler.
pub record Probe : Type 0 where
  pub path : String
  pub port : ℤ
  pub initial_delay_seconds : ℤ
  pub period_seconds : ℤ
  pub failure_threshold : ℤ

pub record ServicePort : Type 0 where
  pub port : ℤ
  pub target_port : ℤ

pub record DeploymentCondition : Type 0 where
  pub type : String
  pub status : ConditionStatus

module _ (K : Platform) where
  pub record EmptyDir : Type 0 where
    pub medium : String
    pub size_limit : Option K.Quantity

  -- `corev1.VolumeSource`: the sources that the operator writes or reads, at most one set. A
  -- ConfigMap source is its name, a claim source the claim's name.
  pub record VolumeSource : Type 0 where
    pub empty_dir : Option EmptyDir
    pub config_map : Option String
    pub persistent_volume_claim : Option String

  pub record Volume : Type 0 where
    pub name : String
    pub source : VolumeSource

  pub record ResourceRequirements : Type 0 where
    pub limits : List (String × K.Quantity)
    pub requests : List (String × K.Quantity)

  pub record Container : Type 0 where
    pub name : String
    pub image : String
    pub args : List String
    pub ports : List ℤ
    pub env : List EnvVar
    pub resources : ResourceRequirements
    pub volume_mounts : List VolumeMount
    pub volume_devices : List VolumeDevice
    pub readiness_probe : Option Probe

  pub record PodSpec : Type 0 where
    pub runtime_class_name : Option String
    pub containers : List Container
    pub volumes : List Volume

  pub record PodTemplateSpec : Type 0 where
    pub metadata : ObjectMeta K
    pub spec : PodSpec

  pub record Pod : Type 0 where
    pub metadata : ObjectMeta K
    pub spec : PodSpec

  pub record DeploymentSpec : Type 0 where
    pub replicas : Option ℤ
    pub strategy : String
    pub selector : List (String × String)
    pub template : PodTemplateSpec

  pub record Deployment : Type 0 where
    pub type_meta : TypeMeta
    pub metadata : ObjectMeta K
    pub spec : DeploymentSpec
    pub conditions : List DeploymentCondition

  pub record Service : Type 0 where
    pub type_meta : TypeMeta
    pub metadata : ObjectMeta K
    pub selector : List (String × String)
    pub ports : List ServicePort

  pub record ConfigMap : Type 0 where
    pub type_meta : TypeMeta
    pub metadata : ObjectMeta K
    pub contents : List (String × String)

  -- The bytes behind each key.
  pub record Secret : Type 0 where
    pub metadata : ObjectMeta K
    pub contents : List (String × List ℕ)
