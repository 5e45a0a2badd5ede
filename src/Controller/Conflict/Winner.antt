-- ===== src/Controller/Conflict/Winner.antt =====
-- The services that name one claim, and which of them the first loop of `trustedStoreConflict` passes
-- (operator/internal/controller/inferenceservice_controller.go).
use bruk.Prelude.{String, true, false, List, [], ◌∷◌, none, arith, ◌≡◌, ◌≢◌, refl, sym, ◌∙◌}
use bruk.Prelude.{◌⊎◌, inl, inr, str_eq, str_eq_iff, Bool-cases, All, Any, here, there}
use mathlib.Core.Path.{subst}
use bruk.Platform.{Platform}
use bruk.Api.InferenceService.{InferenceService}
use bruk.Controller.Conflict.{precedes, sibling_conflict}
use bruk.Controller.Conflict.Order.{IsClock, precedes_total, precedes_trans}
use bruk.Controller.Conflict.Order.{precedes_irrefl}
use bruk.Controller.Conflict.Scan.{YieldsTo, sibling_conflict-eq-none_iff}

pub All-at {ℓ κ} :
    {A : Type ℓ} (P : A → Type κ) {a : A} {xs : List A} → Any (λ x. x ≡ a) xs → All P xs → P a
All-at P (here e) (p, _) = subst P e p
All-at P (there m) (_, ps) = All-at P m ps

module _ {K : Platform} where
  -- The same service, at whatever time: its name, its claim and its creation do not change, its status
  -- does.
  pub record IsStandIn (x b : InferenceService K) : Type 0 where
    pub same_name : x.metadata.name ≡ b.metadata.name
    pub same_creation : x.metadata.creation_timestamp ≡ b.metadata.creation_timestamp
    pub same_claim :
        x.spec.storage.trusted_store.existing_claim ≡ b.spec.storage.trusted_store.existing_claim

  pub stands-precedes :
      (c x b : InferenceService K) → IsStandIn x b → precedes K x c ≡ precedes K b c
  unfolding precedes
  stands-precedes c x b stands = rw (stands.same_name, stands.same_creation) refl

  stands-YieldsTo :
      (c x b : InferenceService K)
      → IsStandIn x b
      → YieldsTo K c c.spec.storage.trusted_store.existing_claim x
      → YieldsTo K c c.spec.storage.trusted_store.existing_claim b
  stands-YieldsTo c x b stands yield = elim yield [
    | inl named ↦ inl (sym stands.same_name ∙ named)
    | inr (inl other) ↦ inr (inl (λ h. other (stands.same_claim ∙ h)))
    | inr (inr later) ↦ inr (inr (sym (stands-precedes c x b stands) ∙ later))
  ]

  pub itself-IsStandIn :
      {b : InferenceService K} {xs : List (InferenceService K)}
      → Any (λ x. x ≡ b) xs
      → Any (λ x. IsStandIn x b) xs
  itself-IsStandIn {b} (here e) = here (
      subst (λ x. IsStandIn x b) (sym e)
        (record { same_name = refl; same_creation = refl; same_claim = refl }))
  itself-IsStandIn (there m) = there (itself-IsStandIn m)

module _ {K : Platform} (clock : IsClock K) where
  abbrev claim_of : InferenceService K → String
  claim_of isvc = isvc.spec.storage.trusted_store.existing_claim

  -- If times are instants, two services of different names and one claim do not both yield.
  pub yield_exclusive :
      (a b : InferenceService K)
      → a.metadata.name ≢ b.metadata.name
      → claim_of a ≡ claim_of b
      → YieldsTo K a (claim_of a) b
      → ¬ YieldsTo K b (claim_of b) a
  yield_exclusive a b differ same yields_a yields_b =
      ground (arith, precedes_total clock a b differ)

  -- If times are instants, two services of different names and one claim, each of which the other
  -- one's scan lists with some status, do not both pass it.
  pub sibling_conflict_exclusive :
      (a b : InferenceService K) (seen_by_a seen_by_b : List (InferenceService K))
      → a.metadata.name ≢ b.metadata.name
      → claim_of a ≡ claim_of b
      → Any (λ x. IsStandIn x b) seen_by_a
      → Any (λ x. IsStandIn x a) seen_by_b
      → sibling_conflict K a (claim_of a) seen_by_a ≡ none
      → sibling_conflict K b (claim_of b) seen_by_b ≢ none
  sibling_conflict_exclusive a b seen_by_a seen_by_b differ same sees_b sees_a pass_a pass_b =
      yield_exclusive a b differ same
        (yields a b seen_by_a sees_b
          ((sibling_conflict-eq-none_iff K a (claim_of a) seen_by_a).0 pass_a))
        (yields b a seen_by_b sees_a
          ((sibling_conflict-eq-none_iff K b (claim_of b) seen_by_b).0 pass_b))
    where
      yields :
          (c d : InferenceService K) (seen : List (InferenceService K))
          → Any (λ x. IsStandIn x d) seen
          → All (YieldsTo K c (claim_of c)) seen
          → YieldsTo K c (claim_of c) d
      yields c d [] m _ = elim m [ ]
      yields c d (x ∷ xs) (here stands) (yield, _) = stands-YieldsTo c x d stands yield
      yields c d (x ∷ xs) (there m) (_, rest) = yields c d xs m rest

  -- A contender for a claim that no contender of the list precedes.
  record IsFirst (claim : String) (w : InferenceService K) (xs : List (InferenceService K))
      : Type 0 where
    contends : claim_of w ≡ claim
    unbeaten : All (λ x. (claim_of x ≢ claim) ⊎ (precedes K x w ≡ false)) xs

  unbeaten_trans :
      (claim : String) (x w : InferenceService K) (xs : List (InferenceService K))
      → precedes K x w ≡ true
      → All (λ y. (claim_of y ≢ claim) ⊎ (precedes K y w ≡ false)) xs
      → All (λ y. (claim_of y ≢ claim) ⊎ (precedes K y x ≡ false)) xs
  unbeaten_trans claim x w [] h u = tt
  unbeaten_trans claim x w (y ∷ ys) h (p, u) =
      (ground (arith, precedes_trans clock y x w), unbeaten_trans claim x w ys h u)

  abbrev First : String → List (InferenceService K) → Type 0
  First claim xs = (w : InferenceService K) × Any (λ x. x ≡ w) xs × IsFirst claim w xs

  First-cons :
      (claim : String) (x : InferenceService K) (xs : List (InferenceService K))
      → claim_of x ≡ claim
      → All (λ y. claim_of y ≢ claim) xs ⊎ First claim xs
      → First claim (x ∷ xs)
  First-cons claim x xs e (inl alone) = (
    x,
    here refl,
    record { contends = e; unbeaten = (inr (precedes_irrefl clock x), weaken xs alone) },
  )
    where
      weaken :
          (ys : List (InferenceService K))
          → All (λ y. claim_of y ≢ claim) ys
          → All (λ y. (claim_of y ≢ claim) ⊎ (precedes K y x ≡ false)) ys
      weaken [] a = tt
      weaken (y ∷ ys) (p, a) = (inl p, weaken ys a)
  First-cons claim x xs e (inr (w, listed, first)) = elim (Bool-cases (precedes K x w)) [
    | inl earlier ↦ (
      x,
      here refl,
      record {
        contends = e;
        unbeaten =
            (inr (precedes_irrefl clock x), unbeaten_trans claim x w xs earlier first.unbeaten);
      },
    )
    | inr later ↦ (
      w,
      there listed,
      record { contends = first.contends; unbeaten = (inr later, first.unbeaten) },
    )
  ]

  First-of_claim :
      (claim : String) (xs : List (InferenceService K))
      → All (λ y. claim_of y ≢ claim) xs ⊎ First claim xs
  First-of_claim claim [] = inl tt
  First-of_claim claim (x ∷ xs) = elim (Bool-cases (str_eq (claim_of x) claim)) [
    | inl same ↦
        inr
          (First-cons claim x xs ((str_eq_iff (claim_of x) claim).0 same) (First-of_claim claim xs))
    | inr differs ↦
        let other : claim_of x ≢ claim = ground (arith, str_eq_iff (claim_of x) claim) in
        elim (First-of_claim claim xs) [
          | inl none_there ↦ inl (other, none_there)
          | inr (w, listed, first) ↦ inr (
            w,
            there listed,
            record { contends = first.contends; unbeaten = (inl other, first.unbeaten) },
          )
        ]
  ]

  yields_of_unbeaten :
      (claim : String) (w : InferenceService K) (xs : List (InferenceService K))
      → All (λ y. (claim_of y ≢ claim) ⊎ (precedes K y w ≡ false)) xs
      → All (YieldsTo K w claim) xs
  yields_of_unbeaten claim w [] u = tt
  yields_of_unbeaten claim w (y ∷ ys) (p, u) = (ground arith, yields_of_unbeaten claim w ys u)

  -- If times are instants and some listed service names the claim, then a listed one that does
  -- passes its scan of the list: the first loop never locks out all contenders.
  pub sibling_conflict_winner :
      (claim : String) (xs : List (InferenceService K))
      → Any (λ x. claim_of x ≡ claim) xs
      → (w : InferenceService K) × Any (λ x. x ≡ w) xs
        × (claim_of w ≡ claim)
        × (sibling_conflict K w claim xs ≡ none)
  sibling_conflict_winner claim xs some_one = elim (First-of_claim claim xs) [
    | inl nobody ↦ absurd (nowhere xs some_one nobody)
    | inr (w, listed, first) ↦ (
      w,
      listed,
      first.contends,
      (sibling_conflict-eq-none_iff K w claim xs).1 (yields_of_unbeaten claim w xs first.unbeaten),
    )
  ]
    where
      nowhere :
          (ys : List (InferenceService K))
          → Any (λ x. claim_of x ≡ claim) ys
          → All (λ y. claim_of y ≢ claim) ys
          → ⊥
      nowhere [] m a = elim m [ ]
      nowhere (y ∷ ys) (here e) (n, _) = n e
      nowhere (y ∷ ys) (there m) (_, a) = nowhere ys m a
