-- ===== src/Kube/Meta.antt =====
-- `metav1.TypeMeta`, `metav1.ObjectMeta`, and the keys by which objects are fetched.
use bruk.Prelude.{String, List, [], Option}
use bruk.Prelude.Int.{ℤ, pos}
use bruk.Platform.{Platform}

pub record TypeMeta : Type 0 where
  pub api_version : String
  pub kind : String

-- `metav1.ListMeta`, which the operator only copies.
pub record ListMeta : Type 0 where
  pub self_link : String
  pub resource_version : String
  pub continue : String
  pub remaining_item_count : Option ℤ

-- `types.NamespacedName`; a cluster-scoped object has the namespace "".
pub record NamespacedName : Type 0 where
  pub name : String
  pub namespace : String

abbrev pub no_type_meta : TypeMeta
no_type_meta = record { api_version = ""; kind = "" }

module _ (K : Platform) where
  pub record ObjectMeta : Type 0 where
    pub name : String
    pub namespace : String
    pub uid : String
    pub generation : ℤ
    pub creation_timestamp : K.Time
    pub labels : List (String × String)
    pub annotations : List (String × String)
    pub owner_references : List K.OwnerReference

  -- The zero value of the struct, which the renderer's literals start from.
  abbrev pub no_object_meta : ObjectMeta
  no_object_meta = record {
    name = "";
    namespace = "";
    uid = "";
    generation = pos 0;
    creation_timestamp = K.zero_time;
    labels = [];
    annotations = [];
    owner_references = [];
  }
