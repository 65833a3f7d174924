-- ===== src/Subscriber/Core.antt =====
-- svc-aerial-subscriber/internal/open5gs: the documents that the 5G core reads. A write of
-- `UpdateOne` with an upsert replaces the fields of the first document with the IMSI, or inserts.
pub mod Documents
use aerial_ran_platform.Base.{
  ℕ, String, Bool, Option, none, some, List, [], ◌∷◌, str_eq, delete_first, if◌then◌else◌,
}
use aerial_ran_platform.Base.Int.{ℤ, pos, is_zero}
use aerial_ran_platform.Go.Errors.{Err}
use aerial_ran_platform.Go.Exec.{Result, ok, Exec}
use aerial_ran_platform.Go.Postgres.{Fault, World, call}
use aerial_ran_platform.Subscriber.Model.{Sentinel, Subscriber, Document, Data}

abbrev pub or_default : String → String → String
or_default s d = if str_eq s "" then d else s

-- The document that `Upsert` builds, its defaults filled in.
abbrev pub document : Subscriber → Document
document s = record {
  imsi = s.imsi;
  k = s.ki;
  opc = s.opc;
  amf = or_default s.amf "8000";
  slice_sst = if is_zero s.sst then pos 1 else s.sst;
  slice_sd = if str_eq s.sd "" then none else some s.sd;
  session_name = or_default s.apn "internet";
  session_type = 3;
  qos_index = 9;
  access_restriction_data = 32;
  network_access_mode = 0;
  subscriber_status = 0;
}

-- `UpdateOne({imsi}, {$set: doc}, upsert)`: the document sets every field that is kept.
abbrev pub put_document : Document → List Document → List Document
put_document d [] = d ∷ []
put_document d (e ∷ ds) =
    let rest = put_document d ds in if str_eq e.imsi d.imsi then d ∷ ds else e ∷ rest

abbrev pub has_imsi : String → Document → Bool
has_imsi imsi d = str_eq d.imsi imsi

module _ (fault : ℕ → Option Fault) where
  unfoldable pub upsert : Subscriber → Exec (World Data) (Err Sentinel) (Unit {0})
  upsert s =
      call fault λ n t. ok (tt, record t { subscribers = put_document (document s) t.subscribers })

  unfoldable pub delete : String → Exec (World Data) (Err Sentinel) (Unit {0})
  delete imsi =
      call fault
        λ n t. ok (tt, record t { subscribers = delete_first (has_imsi imsi) t.subscribers })
