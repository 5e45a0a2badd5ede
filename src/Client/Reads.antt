-- ===== src/Client/Reads.antt =====
-- The calls that change nothing, and logs that grow by such calls only.
use bruk.Prelude.{Bool, true, false, List, ◌∷◌, ◌≡◌}
use bruk.Platform.{Platform}
use bruk.Client
use bruk.Client.{Call}

-- A call that changes nothing.
abbrev pub is_read : {K : Platform} → Call K → Bool
is_read (Client.got_inference_service k) = true
is_read (Client.got_bruk_tenant k) = true
is_read (Client.got_bruk_model k) = true
is_read (Client.got_secret k) = true
is_read (Client.listed_inference_services n) = true
is_read Client.listed_all_inference_services = true
is_read (Client.listed_deployments n) = true
is_read (Client.listed_pods n) = true
is_read (Client.applied_config_map c) = false
is_read (Client.applied_deployment d) = false
is_read (Client.applied_service s) = false
is_read (Client.updated_inference_service_status i) = false
is_read (Client.updated_bruk_model_status m) = false
is_read (Client.updated_bruk_tenant_status t) = false

module _ {K : Platform} where
  -- The second log is the first one with more reads.
  pub data OnlyReads (before : List (Call K)) : List (Call K) → Type 0 where
    unchanged : OnlyReads before before
    read :
        {c : Call K} {after : List (Call K)}
        → is_read c ≡ true
        → OnlyReads before after
        → OnlyReads before (c ∷ after)
