-- ===== src/RanControl/Gnb/View.antt =====
-- What a caller sees of the cell that was requested.
use aerial_ran_platform.Base.{String, false, none, some, List, [], ◌∷◌, ◌≡◌, refl, ap, str_eq}
use aerial_ran_platform.Base.Int.{pos}
use aerial_ran_platform.Go.Exec.{ok, ◌>>=◌}
use aerial_ran_platform.RanControl.Gnb.{
  Value, text, number, object, CreateRequest, GNodeB, Cluster, nested, under, as_text, as_number,
  to_view, or_text, or_number, resource, create, get,
}

-- The cell as it was asked for, with the defaults, and nothing reported of it yet.
abbrev pub requested : String → CreateRequest → GNodeB
requested namespace req = record {
  name = req.name;
  namespace = namespace;
  band = or_text req.band "n78";
  bandwidth = or_number req.bandwidth (pos 100);
  gpu_type = or_text req.gpu_type "L4";
  phase = "Pending";
  ready_replicas = pos 0;
  image = or_text req.image "nvcr.io/nvidia/aerial/aerial-ran:24.3";
}

-- A text, a number or a flag, which has no parts.
abbrev pub IsLeaf : Value → Type 0
IsLeaf (object fs) = ⊥
IsLeaf _ = Unit

-- What the API server does with an object that it accepts: it may add fields, such as the uid and
-- the other metadata of its own, but each text, number and flag that was sent stays at its path;
-- and nothing is reported of it yet.
pub record Accepts (sent stored : Value) : Type 0 where
  pub keeps :
      (path : List String) (x : Value)
      → IsLeaf x
      → nested path (some sent) ≡ some x
      → nested path (some stored) ≡ some x
  pub no_status : nested ("status" ∷ []) (some stored) ≡ none

module _ (namespace : String) (req : CreateRequest) (v : Value) where
  view_of_accepted : Accepts (resource namespace req) v → to_view v ≡ requested namespace req
  unfolding resource
  view_of_accepted a = λ i. record {
    name = as_text (a.keeps ("metadata" ∷ "name" ∷ []) (text req.name) tt refl i);
    namespace = as_text (a.keeps ("metadata" ∷ "namespace" ∷ []) (text namespace) tt refl i);
    band =
        as_text
          (a.keeps ("spec" ∷ "phyConfig" ∷ "band" ∷ []) (text (or_text req.band "n78")) tt refl i);
    bandwidth = as_number (
        a.keeps ("spec" ∷ "phyConfig" ∷ "bandwidth" ∷ [])
          (number (or_number req.bandwidth (pos 100))) tt refl i);
    gpu_type = as_text (
        a.keeps ("spec" ∷ "gpuResources" ∷ "type" ∷ []) (text (or_text req.gpu_type "L4")) tt refl
          i);
    phase = or_text (as_text (under "phase" (a.no_status i))) "Pending";
    ready_replicas = as_number (under "readyReplicas" (a.no_status i));
    image = as_text (
        a.keeps ("spec" ∷ "image" ∷ [])
          (text (or_text req.image "nvcr.io/nvidia/aerial/aerial-ran:24.3")) tt refl i);
  }

module _ {W : Type 0} (cluster : Cluster W) (namespace : String) (req : CreateRequest)
    (w w' : W) where
  -- For a request with a name, when the cluster accepts the object that it is sent, with whatever
  -- fields it adds, and reports no status of it yet, `Create` returns the cell as it was asked for,
  -- each default filled in and the phase "Pending"; and `Get` of the stored object returns the same.
  pub create_shows_request :
      (created stored : Value)
      → str_eq req.name "" ≡ false
      → Accepts (resource namespace req) created
      → Accepts (resource namespace req) stored
      → cluster.create_object namespace (resource namespace req) w ≡ (ok created, w')
      → cluster.get_object namespace req.name w' ≡ (ok stored, w')
      → (create cluster namespace req w ≡ (ok (requested namespace req), w'))
        × (get cluster namespace req.name w' ≡ (ok (requested namespace req), w'))
  unfolding create get ◌>>=◌
  create_shows_request created stored named a b sent kept = (
    rw (named, sent) (ap (λ (g : GNodeB). (ok g, w')) (view_of_accepted namespace req created a)),
    rw kept (ap (λ (g : GNodeB). (ok g, w')) (view_of_accepted namespace req stored b)),
  )
