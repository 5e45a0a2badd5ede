-- ===== src/Cluster/Shrinks.antt =====
-- What the deeds of other writers keep.
use bruk.Prelude.{refl, inl, inr, sym, ◌∙◌}
use bruk.Platform.{Platform}
use bruk.Kube.Workload.{Deployment}
use bruk.Api.InferenceService.{InferenceService}
use bruk.Client.{Client}
use bruk.Cluster.{View, IsRestOf, IsHarmless, Shrinks, IsExclusive, IsNamed, IsFree}

module _ {K : Platform} {C : Client K} (V : View C) where
  pub IsRestOf-refl : (d : Deployment K) → IsRestOf V d d
  IsRestOf-refl d = record {
    same_name = refl;
    same_namespace = refl;
    mounts = λ c m. m;
    controls = λ u k n h. h;
  }

  IsRestOf-trans : {d e f : Deployment K} → IsRestOf V d e → IsRestOf V e f → IsRestOf V d f
  IsRestOf-trans p q = record {
    same_name = q.same_name ∙ p.same_name;
    same_namespace = q.same_namespace ∙ p.same_namespace;
    mounts = λ c m. p.mounts c (q.mounts c m);
    controls = λ u k n h. p.controls u k n (q.controls u k n h);
  }

  IsHarmless-rest : {d e : Deployment K} → IsHarmless V d → IsRestOf V d e → IsHarmless V e
  IsHarmless-rest h p = record {
    claimless = λ c m. h.claimless c (p.mounts c m);
    unowned = λ u k n o. h.unowned u k n (p.controls u k n o);
  }

  pub Shrinks-refl : (s : C.State) → Shrinks V s s
  Shrinks-refl s d has = inl (d, has, IsRestOf-refl d)

  pub Shrinks-trans : {s t u : C.State} → Shrinks V s t → Shrinks V t u → Shrinks V s u
  Shrinks-trans p q d has = elim (q d has) [
    | inr harmless ↦ inr harmless
    | inl (e, has_e, rest) ↦ elim (p e has_e) [
      | inr harmless ↦ inr (IsHarmless-rest harmless rest)
      | inl (f, has_f, older) ↦ inl (f, has_f, IsRestOf-trans older rest)
    ]
  ]

  pub Shrinks-IsNamed : {s t : C.State} → Shrinks V s t → IsNamed V s → IsNamed V t
  Shrinks-IsNamed p named d uid k has n o = elim (p d has) [
    | inr harmless ↦ absurd (harmless.unowned uid k n o)
    | inl (e, has_e, rest) ↦
        let (name, namespace) = named e uid k has_e n (rest.controls uid k n o) in
        (rest.same_name ∙ name, rest.same_namespace ∙ namespace)
  ]

  pub Shrinks-IsFree :
      {s t : C.State} (isvc : InferenceService K)
      → Shrinks V s t
      → IsFree V isvc s
      → IsFree V isvc t
  Shrinks-IsFree isvc p free d has here_too m = elim (p d has) [
    | inr harmless ↦ absurd (harmless.claimless _ m)
    | inl (e, has_e, rest) ↦
        rest.same_name ∙ free e has_e (sym rest.same_namespace ∙ here_too) (rest.mounts _ m)
  ]

  pub Shrinks-IsExclusive : {s t : C.State} → Shrinks V s t → IsExclusive V s → IsExclusive V t
  Shrinks-IsExclusive p exclusive d e claim has_d has_e together m n = elim (p d has_d) [
    | inr harmless ↦ absurd (harmless.claimless claim m)
    | inl (d', had_d, rest_d) ↦ elim (p e has_e) [
      | inr harmless ↦ absurd (harmless.claimless claim n)
      | inl (e', had_e, rest_e) ↦
          rest_d.same_name
          ∙ exclusive d' e' claim had_d had_e
              (sym rest_d.same_namespace ∙ together ∙ rest_e.same_namespace) (rest_d.mounts claim m)
              (rest_e.mounts claim n)
          ∙ sym rest_e.same_name
    ]
  ]
