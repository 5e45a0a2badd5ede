-- ===== src/DeepCopy/Functions.antt =====
-- The functions of apimachinery that operator/api/v1alpha1/zz_generated.deepcopy.go calls, what its types
-- denote, and that its copies are deep.
use bruk.Prelude.{List, Option}
use bruk.Platform.{Platform}
use bruk.Kube.Meta.{ObjectMeta, ListMeta}
use bruk.Kube.Condition.{Condition}
use bruk.DeepCopy.Layout.{Library}
use bruk.DeepCopy.Cells.{Cell}
use bruk.DeepCopy.Memory.{M}
use bruk.DeepCopy.Memory.Deep.{IsDeep}

-- `DeepCopyInto` of `metav1.ObjectMeta`, `metav1.ListMeta` and `metav1.Condition`, and `DeepCopy` of
-- `resource.Quantity`.
pub record Functions (L : Library) : Type 0 where
  pub object_meta_into : L.ObjectMeta → M (Cell L) L.ObjectMeta
  pub list_meta_into : L.ListMeta → M (Cell L) L.ListMeta
  pub condition_into : L.Condition → M (Cell L) L.Condition
  pub quantity_into : L.Quantity → M (Cell L) L.Quantity

module _ (L : Library) (K : Platform) where
  -- What the types denote.
  pub record Sight : Type 0 where
    pub see_object_meta : List (Cell L) → L.ObjectMeta → Option (ObjectMeta K)
    pub see_list_meta : List (Cell L) → L.ListMeta → Option ListMeta
    pub see_condition : List (Cell L) → L.Condition → Option Condition
    pub see_quantity : List (Cell L) → L.Quantity → Option K.Quantity

-- The documented behaviour: the copies are deep.
pub record IsLibrary {L : Library} {K : Platform} (F : Functions L) (S : Sight L K) : Type 0 where
  pub object_meta : IsDeep S.see_object_meta F.object_meta_into
  pub list_meta : IsDeep S.see_list_meta F.list_meta_into
  pub condition : IsDeep S.see_condition F.condition_into
  pub quantity : IsDeep S.see_quantity F.quantity_into
