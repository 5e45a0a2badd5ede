-- ===== src/Render/Args.antt =====
-- The engine's command line: `engineArgs` of operator/internal/render/render.go.
use text.Mathlib.TextLemmas.{append_cancel_left}
use bruk.Prelude.{◌≡◌, refl, sym, ◌∙◌, String, ◌<>◌, List, [], ◌∷◌}
use bruk.Prelude.{◌++◌, arith, str_eq, str_eq_iff, Bool, true, false, if◌then◌else◌, Bool-cases}
use Prim.Native.String as Str
use bruk.Prelude.{inl, inr, length, ℕ, ◌<◌, ap, Any, here, there}
use bruk.Prelude.Int.{ℤ, pos}
use bruk.Fmt.{format_02d, read_decimal}
use bruk.Fmt.RoundTrip.{format_d-injective, format_02d_reads}
use bruk.Platform.{Platform}
use bruk.Api.BrukModel.{HuggingFaceSource, BrukModel, served_model_name}
use bruk.Api.InferenceService.{InferenceService}
use bruk.Render.{engine_args}

-- What a command line is rendered from.
pub record EngineView : Type 0 where
  pub repo : String
  pub served : String
  pub quantization : String
  pub max_model_len : ℤ
  pub utilization : String

-- The list with its optional third entry, taken apart.
same_args :
    (t t' : Bool) (a a' b b' q q' c c' d d' : String) (rest rest' : List String)
    → length rest ≡ length rest'
    → a ∷ b ∷ (if t then [] else q ∷ []) ++ c ∷ d ∷ rest
      ≡ a' ∷ b' ∷ (if t' then [] else q' ∷ []) ++ c' ∷ d' ∷ rest'
    → (a ≡ a') × (b ≡ b') × (t ≡ t') × (t ≡ false → q ≡ q') × (c ≡ c') × (d ≡ d')
same_args true true a a' b b' q q' c c' d d' rest rest' l e = ground arith
same_args true false a a' b b' q q' c c' d d' rest rest' l e = ground arith
same_args false true a a' b b' q q' c c' d d' rest rest' l e = ground arith
same_args false false a a' b b' q q' c c' d d' rest rest' l e = ground arith

fourth_listed :
    (t : Bool) {text : String} (a b q c d : String) (rest : List String)
    → d ≡ text
    → Any (λ arg. arg ≡ text) (a ∷ b ∷ (if t then [] else q ∷ []) ++ c ∷ d ∷ rest)
fourth_listed true a b q c d rest e = there (there (there (here e)))
fourth_listed false a b q c d rest e = there (there (there (there (here e))))

same_quantization :
    (q q' : String)
    → str_eq q "" ≡ str_eq q' ""
    → (str_eq q "" ≡ false → "--quantization=" <> q ≡ "--quantization=" <> q')
    → q ≡ q'
same_quantization q q' same written = elim (Bool-cases (str_eq q "")) [
  | inl quiet ↦ (str_eq_iff q "").0 quiet ∙ sym ((str_eq_iff q' "").0 (sym same ∙ quiet))
  | inr loud ↦ append_cancel_left "--quantization=" q q' (written loud)
]

same_view :
    {v w : EngineView}
    → v.repo ≡ w.repo
    → v.served ≡ w.served
    → v.quantization ≡ w.quantization
    → v.max_model_len ≡ w.max_model_len
    → v.utilization ≡ w.utilization
    → v ≡ w
same_view a b c d e = ground arith

module _ (K : Platform) where
  abbrev pub engine_view : InferenceService K → BrukModel K → HuggingFaceSource → EngineView
  engine_view isvc model hf = record {
    repo = hf.repo;
    served = served_model_name K model;
    quantization = isvc.spec.engine.quantization;
    max_model_len = isvc.spec.engine.max_model_len;
    utilization = format_02d isvc.spec.engine.gpu_memory_utilization_percent;
  }

  -- Two services whose command lines are equal were rendered from the same repository, served
  -- name, quantization, context window and printed memory share.
  pub engine_args-injective :
      (isvc isvc' : InferenceService K) (model model' : BrukModel K) (hf hf' : HuggingFaceSource)
      → engine_args K isvc model hf ≡ engine_args K isvc' model' hf'
      → engine_view isvc model hf ≡ engine_view isvc' model' hf'
  unfolding engine_args
  engine_args-injective isvc isvc' model model' hf hf' e =
      let (repo, served, quiet, quantized, len, share) =
        same_args _ _ _ _ _ _ _ _ _ _ _ _ _ _ refl e in
      same_view (append_cancel_left "--model=" _ _ repo)
        (append_cancel_left "--served-model-name=" _ _ served)
        (same_quantization _ _ quiet quantized)
        (format_d-injective _ _ (append_cancel_left "--max-model-len=" _ _ len))
        (append_cancel_left "--gpu-memory-utilization=0." _ _ share)

  -- For a memory share below 100 the flag is "0." and two digits that read back as the share.
  pub engine_args-utilization :
      (isvc : InferenceService K) (model : BrukModel K) (hf : HuggingFaceSource) (p : ℕ)
      → isvc.spec.engine.gpu_memory_utilization_percent ≡ pos p
      → p < 100
      → (t : String) × Any
          (λ arg. arg ≡ "--gpu-memory-utilization=0." <> t)
          (engine_args K isvc model hf)
        × (Str.count t ≡ 2)
        × (read_decimal t ≡ p)
  unfolding engine_args
  engine_args-utilization isvc model hf p e h =
      let (places, reads) = format_02d_reads p h in
      (
        format_02d (pos p),
        fourth_listed (str_eq isvc.spec.engine.quantization "") _ _ _ _ _ _
            (ap (λ n. "--gpu-memory-utilization=0." <> format_02d n) e),
        places,
        reads,
      )
