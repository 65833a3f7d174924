-- ===== src/RanControl/Handler.antt =====
-- svc-aerial-ran-control/internal/ranctl/ranctl.go: the GNodeB endpoints. The client is none when
-- there is no cluster; what Kubernetes' tests say of an error is a parameter.
pub mod Errors
use aerial_ran_platform.Base.{String, Bool, Option, none, some, List, if◌then◌else◌, true}
use aerial_ran_platform.Go.Errors.{Err, errors_is}
use aerial_ran_platform.Go.Exec.{Exec}
use aerial_ran_platform.Respond.{Response, json, error, written, text, error_text, reply}
use aerial_ran_platform.RanControl.Gnb
use aerial_ran_platform.RanControl.Gnb.{Sentinel, invalid_request, CreateRequest, GNodeB, Cluster}

abbrev pub same : Sentinel → Sentinel → Bool
same invalid_request invalid_request = true

-- `apierrors.IsNotFound` and `apierrors.IsAlreadyExists`
pub record Tests : Type 0 where
  pub is_not_found : Err Sentinel → Bool
  pub is_already_exists : Err Sentinel → Bool

abbrev pub Endpoint : Type 0 → Type 0 → Type 0
Endpoint W A = W → Response Sentinel A × W

abbrev pub with_client :
    {W A : Type 0} → Option (Cluster W) → (Cluster W → Endpoint W A) → Endpoint W A
with_client none f w =
    (error 503 "gnb_unavailable" (text "no cluster access; GNodeB API disabled"), w)
with_client (some c) f w = f c w

abbrev pub with_body : {W A B : Type 0} → Option B → (B → Endpoint W A) → Endpoint W A
with_body none f w = (error 400 "bad_request" (text "invalid json"), w)
with_body (some b) f w = f b w

abbrev pub gateway_err : {A : Type 0} → Err Sentinel → Response Sentinel A
gateway_err e = error 502 "k8s_error" (error_text e)

module _ (tests : Tests) where
  abbrev pub create_err : {A : Type 0} → Err Sentinel → Response Sentinel A
  create_err e =
      if errors_is same e invalid_request
      then error 400 "bad_request" (error_text e)
      else if tests.is_already_exists e
      then error 409 "conflict" (error_text e)
      else gateway_err e

  abbrev pub lookup_err : {A : Type 0} → Err Sentinel → Response Sentinel A
  lookup_err e =
      if tests.is_not_found e then error 404 "not_found" (error_text e) else gateway_err e

  module _ {W : Type 0} (client : Option (Cluster W)) (namespace : String) where
    unfoldable pub create_gnb : Option CreateRequest → Endpoint W GNodeB
    create_gnb body =
        with_client client
          λ c. with_body body λ req. reply (Gnb.create c namespace req) (json 201) create_err

    unfoldable pub list_gnb : Endpoint W (List GNodeB)
    list_gnb = with_client client λ c. reply (Gnb.list c namespace) (json 200) gateway_err

    unfoldable pub get_gnb : String → Endpoint W GNodeB
    get_gnb name = with_client client λ c. reply (Gnb.get c namespace name) (json 200) lookup_err

    unfoldable pub delete_gnb : String → Endpoint W (Unit {0})
    delete_gnb name =
        with_client client λ c. reply (Gnb.delete c namespace name) (λ _. written) lookup_err
