-- ===== src/Subscriber/Repository.antt =====
-- svc-aerial-subscriber/internal/repository: the SQL statements on `subscriber.sims`, each a
-- function on the table, and the methods that run them.
pub mod Outcomes
use aerial_ran_platform.Base.{
  ℕ, suc, String, Bool, true, false, ◌&&◌, ◌||◌, Option, none, some, List, [], ◌∷◌, map, str_eq,
  ◌==◌, ltb, is_some, length, take, find, exists, select, update, sort_by, if◌then◌else◌,
}
use mathlib.Core.Option
use aerial_ran_platform.Go.Errors.{Err, pg, sentinel}
use aerial_ran_platform.Go.Exec.{Result, ok, err, Exec, pure, fail, attempt, ◌>>=◌}
use aerial_ran_platform.Go.Postgres.{Postgres, World, call, cast, cast_null}
use aerial_ran_platform.Subscriber.Model.{Sentinel, sim_not_found, sim_exists, Sim, SimRow, Data}

abbrev pub ptr_to_str : Option String → String
ptr_to_str none = ""
ptr_to_str (some s) = s

-- The type assertion on `err` itself: a wrapped error does not count.
abbrev pub is_unique_violation : Err Sentinel → Bool
is_unique_violation (pg code) = str_eq code "23505"
is_unique_violation _ = false

abbrev pub has_id : ℕ → SimRow → Bool
has_id u r = r.id == u

abbrev pub in_org : ℕ → SimRow → Bool
in_org u r = r.org_id == u

abbrev pub in_plmn : String → String → SimRow → Bool
in_plmn mcc mnc r = str_eq r.plmn_mcc mcc && str_eq r.plmn_mnc mnc

-- `PRIMARY KEY (id)` and `UNIQUE (imsi)`
abbrev pub clashes : ℕ → String → SimRow → Bool
clashes u imsi r = r.id == u || str_eq r.imsi imsi

abbrev pub created_later : SimRow → SimRow → Bool
created_later a b = ltb b.created_at a.created_at

abbrev pub Answer : Type 0 → Type 0
Answer A = Result (Err Sentinel) (A × Data)

abbrev pub count_sims : String → String → ℕ → Data → Answer ℕ
count_sims mcc mnc n t = ok (length (select (in_plmn mcc mnc) t.sims), t)

abbrev pub add_row : SimRow → Data → Answer SimRow
add_row r t =
    if exists (clashes r.id r.imsi) t.sims
    then err (pg "23505")
    else ok (r, record t { sims = r ∷ t.sims })

abbrev pub provisioned : ℕ → SimRow → SimRow
provisioned now r = record r { provisioned_at = some now; updated_at = now }

abbrev pub with_status : String → ℕ → SimRow → SimRow
with_status status now r = record r { status = status; updated_at = now }

module _ (server : Postgres) where
  -- A row scanned into `model.SIM`.
  abbrev pub scan : SimRow → Sim
  scan r = record {
    id = server.show_uuid r.id;
    org_id = server.show_uuid r.org_id;
    owner_user_id = Option.map server.show_uuid r.owner_user_id;
    imsi = r.imsi;
    msisdn = r.msisdn;
    plmn_mcc = r.plmn_mcc;
    plmn_mnc = r.plmn_mnc;
    ki = r.ki;
    opc = r.opc;
    amf = r.amf;
    apn = r.apn;
    sst = r.sst;
    sd = r.sd;
    status = r.status;
    provisioned_at = r.provisioned_at;
    created_at = r.created_at;
    updated_at = r.updated_at;
  }

  unfoldable pub next_msin : String → String → Exec (World Data) (Err Sentinel) ℕ
  next_msin mcc mnc = do n ← call server.fault (count_sims mcc mnc); pure (suc n)

  -- The row that `INSERT` adds; `msisdn` and `sd` are stored as texts, never NULL.
  abbrev pub new_row : Sim → ℕ → Option ℕ → ℕ → SimRow
  new_row s org owner n = record {
    id = server.fresh n;
    org_id = org;
    owner_user_id = owner;
    imsi = s.imsi;
    msisdn = some (ptr_to_str s.msisdn);
    plmn_mcc = s.plmn_mcc;
    plmn_mnc = s.plmn_mnc;
    ki = s.ki;
    opc = s.opc;
    amf = s.amf;
    apn = s.apn;
    sst = s.sst;
    sd = some (ptr_to_str s.sd);
    status = s.status;
    provisioned_at = none;
    created_at = server.now n;
    updated_at = server.now n;
  }

  abbrev pub insert_sim : Sim → ℕ → Data → Answer SimRow
  insert_sim s n t = cast (server.parse_uuid s.org_id) λ org.
      cast_null server (ptr_to_str s.owner_user_id) λ owner. add_row (new_row s org owner n) t

  -- `RETURNING id::text, created_at, updated_at`, scanned into the argument.
  abbrev pub returned : Sim → SimRow → Sim
  returned s r = record s {
    id = server.show_uuid r.id;
    created_at = r.created_at;
    updated_at = r.updated_at;
  }

  abbrev pub created : Sim → Result (Err Sentinel) SimRow → Exec (World Data) (Err Sentinel) Sim
  created s (ok r) = pure (returned s r)
  created s (err e) = fail (if is_unique_violation e then sentinel sim_exists else e)

  unfoldable pub create : Sim → Exec (World Data) (Err Sentinel) Sim
  create s = do r ← attempt (call server.fault (insert_sim s)); created s r

  abbrev pub select_by_id : String → ℕ → Data → Answer (Option SimRow)
  select_by_id id n t = cast (server.parse_uuid id) λ u. ok (find (has_id u) t.sims, t)

  abbrev pub or_not_found : Option SimRow → Exec (World Data) (Err Sentinel) Sim
  or_not_found none = fail (sentinel sim_not_found)
  or_not_found (some r) = pure (scan r)

  unfoldable pub get_by_id : String → Exec (World Data) (Err Sentinel) Sim
  get_by_id id = do row ← call server.fault (select_by_id id); or_not_found row

  -- `WHERE org_id = $1::uuid ORDER BY created_at DESC LIMIT 200`
  abbrev pub select_by_org : String → ℕ → Data → Answer (List SimRow)
  select_by_org org_id n t =
      cast (server.parse_uuid org_id)
        λ u. ok (take 200 (sort_by created_later (select (in_org u) t.sims)), t)

  unfoldable pub list_by_org : String → Exec (World Data) (Err Sentinel) (List Sim)
  list_by_org org_id = do rows ← call server.fault (select_by_org org_id); pure (map scan rows)

  abbrev pub set_provisioned : String → ℕ → Data → Answer (Unit {0})
  set_provisioned id n t =
      cast (server.parse_uuid id)
        λ u. ok (tt, record t { sims = update (has_id u) (provisioned (server.now n)) t.sims })

  unfoldable pub mark_provisioned : String → Exec (World Data) (Err Sentinel) (Unit {0})
  mark_provisioned id = call server.fault (set_provisioned id)

  -- The result is whether a row was affected.
  abbrev pub set_status : String → String → ℕ → Data → Answer Bool
  set_status id status n t = cast (server.parse_uuid id) λ u. ok (
    exists (has_id u) t.sims,
    record t { sims = update (has_id u) (with_status status (server.now n)) t.sims },
  )

  unfoldable pub update_status : String → String → Exec (World Data) (Err Sentinel) (Unit {0})
  update_status id status = do
    affected ← call server.fault (set_status id status)
    if affected then pure tt else fail (sentinel sim_not_found)
