-- ===== src/RanControl/Gnb.antt =====
-- svc-aerial-ran-control/internal/gnb/gnb.go: the client of the GNodeB custom resource. The
-- cluster's API server is a parameter; its objects are trees of values.
pub mod View
use aerial_ran_platform.Base.{
  ℕ, String, Bool, true, false, Option, none, some, List, [], ◌∷◌, map, str_eq, if◌then◌else◌,
}
use aerial_ran_platform.Base.Int.{ℤ, pos, is_zero}
use aerial_ran_platform.Go.Errors.{Err, sentinel, join, other}
use aerial_ran_platform.Go.Exec.{Exec, pure, fail_if, ◌>>=◌, ◌>>◌}

pub data Sentinel : Type 0 where
  invalid_request : Sentinel

mutual
  pub data Value : Type 0 where
    text : String → Value
    number : ℤ → Value
    flag : Bool → Value
    object : Fields → Value

  pub data Fields : Type 0 where
    end : Fields
    field : String → Value → Fields → Fields

pub record CreateRequest : Type 0 where
  pub name : String
  pub image : String
  pub gpu_count : ℤ
  pub gpu_type : String
  pub enable_rdma : Bool
  pub bandwidth : ℤ
  pub numerology : ℤ
  pub band : String
  pub max_ues : ℤ
  pub fronthaul : String
  pub security_ref : String

pub record GNodeB : Type 0 where
  pub name : String
  pub namespace : String
  pub band : String
  pub bandwidth : ℤ
  pub gpu_type : String
  pub phase : String
  pub ready_replicas : ℤ
  pub image : String

-- The value under a key, and none where the value is no object.
abbrev pub member : String → Fields → Option Value
member k end = none
member k (field l v fs) = let rest = member k fs in if str_eq l k then some v else rest

abbrev pub under : String → Option Value → Option Value
under k (some (object fs)) = member k fs
under k _ = none

-- `unstructured.NestedFieldNoCopy`
abbrev pub nested : List String → Option Value → Option Value
nested [] v = v
nested (k ∷ ks) v = nested ks (under k v)

-- `NestedString` and `NestedInt64`, whose results are zero values where there is no such value.
abbrev pub as_text : Option Value → String
as_text (some (text s)) = s
as_text _ = ""

abbrev pub as_number : Option Value → ℤ
as_number (some (number z)) = z
as_number _ = pos 0

abbrev pub nested_string : List String → Value → String
nested_string path o = as_text (nested path (some o))

abbrev pub nested_int64 : List String → Value → ℤ
nested_int64 path o = as_number (nested path (some o))

abbrev pub or_text : String → String → String
or_text s d = if str_eq s "" then d else s

abbrev pub or_number : ℤ → ℤ → ℤ
or_number i d = if is_zero i then d else i

abbrev pub to_view : Value → GNodeB
to_view o = record {
  name = nested_string ("metadata" ∷ "name" ∷ []) o;
  namespace = nested_string ("metadata" ∷ "namespace" ∷ []) o;
  band = nested_string ("spec" ∷ "phyConfig" ∷ "band" ∷ []) o;
  bandwidth = nested_int64 ("spec" ∷ "phyConfig" ∷ "bandwidth" ∷ []) o;
  gpu_type = nested_string ("spec" ∷ "gpuResources" ∷ "type" ∷ []) o;
  phase = or_text (nested_string ("status" ∷ "phase" ∷ []) o) "Pending";
  ready_replicas = nested_int64 ("status" ∷ "readyReplicas" ∷ []) o;
  image = nested_string ("spec" ∷ "image" ∷ []) o;
}

abbrev pub image_of : CreateRequest → String
image_of req = or_text req.image "nvcr.io/nvidia/aerial/aerial-ran:24.3"

-- The policy is left out when it is empty.
abbrev pub policy : String → Fields
policy ref = if str_eq ref "" then end else field "securityPolicyRef" (text ref) end

abbrev pub spec : CreateRequest → Fields
spec req = field "image" (text (image_of req)) (
    field "replicas" (number (pos 1)) (
      field "gpuResources"
        (object (
          field "count" (number (or_number req.gpu_count (pos 1))) (
            field "type" (text (or_text req.gpu_type "L4"))
              (field "enableRDMA" (flag req.enable_rdma) end))))
        (field "phyConfig"
          (object (
            field "bandwidth" (number (or_number req.bandwidth (pos 100))) (
              field "numerology" (number req.numerology) (
                field "band" (text (or_text req.band "n78"))
                  (field "maxUEs" (number (or_number req.max_ues (pos 32))) end)))))
          (field "network"
            (object (field "fronthaulInterface" (text (or_text req.fronthaul "eth0")) end))
            (policy req.security_ref)))))

unfoldable pub resource : String → CreateRequest → Value
resource namespace req = object (
    field "apiVersion" (text "ran.wavekube.io/v1alpha1") (
      field "kind" (text "GNodeB") (
        field "metadata"
          (object (field "name" (text req.name) (field "namespace" (text namespace) end)))
          (field "spec" (object (spec req)) end))))

-- The dynamic client at the resource, in a namespace.
pub record Cluster (W : Type 0) : Type 0 where
  pub create_object : String → Value → Exec W (Err Sentinel) Value
  pub list_objects : String → Exec W (Err Sentinel) (List Value)
  pub get_object : String → String → Exec W (Err Sentinel) Value
  pub delete_object : String → String → Exec W (Err Sentinel) (Unit {0})

module _ {W : Type 0} (cluster : Cluster W) (namespace : String) where
  unfoldable pub create : CreateRequest → Exec W (Err Sentinel) GNodeB
  create req = do
    fail_if (str_eq req.name "") (join (sentinel invalid_request) (other "name required"))
    created ← cluster.create_object namespace (resource namespace req)
    pure (to_view created)

  unfoldable pub list : Exec W (Err Sentinel) (List GNodeB)
  list = do items ← cluster.list_objects namespace; pure (map to_view items)

  unfoldable pub get : String → Exec W (Err Sentinel) GNodeB
  get name = do o ← cluster.get_object namespace name; pure (to_view o)

  unfoldable pub delete : String → Exec W (Err Sentinel) (Unit {0})
  delete name = cluster.delete_object namespace name
