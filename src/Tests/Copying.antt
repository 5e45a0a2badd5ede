-- ===== src/Tests/Copying.antt =====
-- A model in memory, and its copies.
use bruk.Prelude.{String, List, [], ◌∷◌, ◌++◌, none, some, ◌≡◌, refl}
use bruk.Kube.Meta.{ObjectMeta, ListMeta}
use bruk.Kube.Condition.{Condition}
use bruk.DeepCopy.Memory.{Pointer, pure, read}
use bruk.DeepCopy.Memory.Deep.{see_pointer, see_plain}
use bruk.DeepCopy.Memory.Pointers.{IsDeep-plain}
use bruk.DeepCopy.Layout.{Library}
use bruk.DeepCopy.Cells.{
  Cell, secret_key_ref_cell, hugging_face_source_cell, bruk_model_cell, word_cell,
}
use bruk.DeepCopy.Functions.{Functions, Sight, IsLibrary}
use bruk.DeepCopy.See.Model.{
  see_hugging_face_source, see_model_source, see_catalog_spec, see_bruk_model_spec,
  see_bruk_model_status, see_bruk_model,
}
use bruk.DeepCopy.Structs
use bruk.DeepCopy.Structs.{see_struct, copy_struct}
use bruk.DeepCopy.Laws.Structs.{copy_struct-independent}
use bruk.DeepCopy.Objects.{Object, a_bruk_model}
use bruk.DeepCopy.Dispatch.{value_bruk_model, see_object, deep_copy_object}
use bruk.DeepCopy.Dispatch.Deep.{deep_copy_object-independent}
use bruk.Tests.Fixtures.{demo, qwen, source}

-- Types without pointers.
abbrev flat : Library
flat = record {
  ObjectMeta = ObjectMeta demo;
  ListMeta = ListMeta;
  Condition = Condition;
  Quantity = String;
  Word = Unit {0};
}

abbrev functions : Functions flat
functions = record {
  object_meta_into = pure;
  list_meta_into = pure;
  condition_into = pure;
  quantity_into = pure;
}

abbrev sight : Sight flat demo
sight = record {
  see_object_meta = see_plain;
  see_list_meta = see_plain;
  see_condition = see_plain;
  see_quantity = see_plain;
}

flat-IsLibrary : IsLibrary functions sight
flat-IsLibrary = record {
  object_meta = IsDeep-plain (λ x. x);
  list_meta = IsDeep-plain (λ x. x);
  condition = IsDeep-plain (λ x. x);
  quantity = IsDeep-plain (λ x. x);
}

-- The token's reference at 0, the source at 1, the model at 2.
abbrev memory : List (Cell flat)
memory =
    secret_key_ref_cell (record { name = "hf-token"; key = "token" })
    ∷ hugging_face_source_cell
        (record { repo = "Qwen/Qwen3-8B"; revision = ""; token_secret_ref = some 0 })
    ∷ bruk_model_cell (record {
      type_meta = qwen.type_meta;
      metadata = qwen.metadata;
      spec = record {
        source = record { hugging_face = some 1 };
        served_name = qwen.spec.served_name;
        catalog = record {
          display_name = qwen.spec.catalog.display_name;
          description = "";
          context_length = qwen.spec.catalog.context_length;
          input_modalities = none;
          output_modalities = none;
          features = none;
          license = "";
          pricing = none;
        };
      };
      status = record { observed_generation = qwen.status.observed_generation; conditions = none };
    })
    ∷ []

-- The same cells, overwritten.
abbrev overwritten : List (Cell flat)
overwritten = word_cell tt ∷ word_cell tt ∷ word_cell tt ∷ []

source_seen :
    see_struct flat demo functions sight Structs.of_hugging_face_source memory (some 1)
    ≡ some (some source)
unfolding see_pointer read see_hugging_face_source
source_seen = refl

copy_struct-independent_example :
    (q : Pointer) × (new : List (Cell flat)) × (copy_struct flat demo functions sight
        Structs.of_hugging_face_source
        (some 1)
        memory
      ≡ some (q, memory ++ new))
    × (see_struct flat demo functions sight Structs.of_hugging_face_source (overwritten ++ new) q
        ≡ some (some source))
    × ((other : List (Cell flat))
        → see_struct flat demo functions sight Structs.of_hugging_face_source
            (memory ++ other)
            (some 1)
          ≡ some (some source))
copy_struct-independent_example =
    copy_struct-independent flat-IsLibrary Structs.of_hugging_face_source memory overwritten
      (some 1) (some source) source_seen refl

model_seen : see_object sight memory (a_bruk_model 2) ≡ some (value_bruk_model qwen)
unfolding see_pointer read see_bruk_model see_bruk_model_spec see_bruk_model_status see_model_source
    see_catalog_spec see_hugging_face_source
model_seen = refl

deep_copy_object-independent_example :
    (copy : Object) × (new : List (Cell flat)) × (deep_copy_object functions (a_bruk_model 2) memory
      ≡ some (some copy, memory ++ new))
    × (see_object sight (overwritten ++ new) copy ≡ some (value_bruk_model qwen))
    × ((other : List (Cell flat))
        → see_object sight (memory ++ other) (a_bruk_model 2) ≡ some (value_bruk_model qwen))
deep_copy_object-independent_example =
    deep_copy_object-independent flat-IsLibrary memory overwritten (a_bruk_model 2)
      (value_bruk_model qwen) model_seen refl
