-- ===== src/Access/Laws.antt =====
-- The role of the operator (the markers of operator/internal/controller) against the calls that it makes
-- with the client options of operator/cmd/main.go.
use bruk.Prelude.{String, Bool, true, false, ◌||◌, ◌≡◌, ◌∙◌, refl, All, str_eq}
use bruk.Platform.{Platform}
use bruk.Client
use bruk.Client.{Call}
use bruk.Manager.{client_options}
use bruk.Access.{Demand, demand, manager_role, allows, demands, one_of, reading}

abbrev pub IsAllowed : Demand → Type 0
IsAllowed d = allows manager_role d ≡ true

or_last : (b : Bool) → (b || false) ≡ b
or_last true = refl
or_last false = refl

or_twice : (b : Bool) → (b || (b || false)) ≡ b
or_twice true = refl
or_twice false = refl

demands-IsAllowed : {K : Platform} (c : Call K) → All IsAllowed (demands client_options c)
unfolding demands str_eq
demands-IsAllowed (Client.got_inference_service k) = (refl, (refl, tt))
demands-IsAllowed (Client.got_bruk_tenant k) = (refl, (refl, tt))
demands-IsAllowed (Client.got_bruk_model k) = (refl, (refl, tt))
demands-IsAllowed (Client.got_secret k) = (refl, tt)
demands-IsAllowed (Client.listed_inference_services n) = (refl, (refl, tt))
demands-IsAllowed Client.listed_all_inference_services = (refl, (refl, tt))
demands-IsAllowed (Client.listed_deployments n) = (refl, (refl, tt))
demands-IsAllowed (Client.listed_pods n) = (refl, (refl, tt))
demands-IsAllowed (Client.applied_config_map c) = (refl, (refl, tt))
demands-IsAllowed (Client.applied_deployment d) = (refl, (refl, tt))
demands-IsAllowed (Client.applied_service s) = (refl, (refl, tt))
demands-IsAllowed (Client.updated_inference_service_status i) = (refl, tt)
demands-IsAllowed (Client.updated_bruk_model_status m) = (refl, tt)
demands-IsAllowed (Client.updated_bruk_tenant_status t) = (refl, tt)

module _ (verb : String) where
  secrets-verbs : allows manager_role (demand "" "secrets" verb) ≡ str_eq "get" verb
  unfolding str_eq
  secrets-verbs = or_last (str_eq "get" verb || false) ∙ or_last (str_eq "get" verb)

  inference_services-verbs :
      allows manager_role (demand "bruk.airon.ai" "inferenceservices" verb) ≡ one_of reading verb
  unfolding str_eq
  inference_services-verbs = or_last (one_of reading verb)

  bruk_models-verbs :
      allows manager_role (demand "bruk.airon.ai" "brukmodels" verb) ≡ one_of reading verb
  unfolding str_eq
  bruk_models-verbs = or_twice (one_of reading verb)

  bruk_tenants-verbs :
      allows manager_role (demand "bruk.airon.ai" "bruktenants" verb) ≡ one_of reading verb
  unfolding str_eq
  bruk_tenants-verbs = or_twice (one_of reading verb)

-- The role fits the calls: it allows all that a call of the reconcilers demands of the API server when
-- the client reads through its cache as the client options say, Secrets past it; of Secrets it allows
-- to get them and no other verb; and of inference services, models and tenants themselves it allows
-- to get, list and watch them and no other verb.
pub manager_role-fits :
    {K : Platform} (c : Call K) (verb : String)
    → All IsAllowed (demands client_options c)
      × (allows manager_role (demand "" "secrets" verb) ≡ str_eq "get" verb)
      × (allows manager_role (demand "bruk.airon.ai" "inferenceservices" verb)
          ≡ one_of reading verb)
      × (allows manager_role (demand "bruk.airon.ai" "brukmodels" verb) ≡ one_of reading verb)
      × (allows manager_role (demand "bruk.airon.ai" "bruktenants" verb) ≡ one_of reading verb)
manager_role-fits c verb = (
  demands-IsAllowed c,
  secrets-verbs verb,
  inference_services-verbs verb,
  bruk_models-verbs verb,
  bruk_tenants-verbs verb,
)
