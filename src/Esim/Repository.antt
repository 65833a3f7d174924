-- ===== src/Esim/Repository.antt =====
-- svc-aerial-esim/internal/repository: the SQL statements on `esim.packages` and `esim.esims`,
-- each a function on the tables, and the methods that run them.
pub mod Outcomes
use aerial_ran_platform.Base.{
  ℕ, String, Bool, true, false, ◌&&◌, ◌||◌, Option, none, some, List, [], ◌∷◌, map, str_eq, ◌==◌,
  ltb, take, find, exists, select, update, sort_by, if◌then◌else◌,
}
use aerial_ran_platform.Base.Int.{ℤ, pos, less, in_int4}
use mathlib.Core.Option
use aerial_ran_platform.Go.Errors.{Err, pg, sentinel, other}
use aerial_ran_platform.Go.Exec.{Result, ok, err, Exec, pure, fail, ◌>>=◌}
use aerial_ran_platform.Go.Postgres.{Postgres, World, call, cast, cast_null}
use aerial_ran_platform.Esim.Model.{
  Sentinel, package_not_found, esim_not_found, Package, Esim, PackageRow, EsimRow, Data,
}

abbrev pub deref : Option String → String
deref none = ""
deref (some s) = s

abbrev pub deref_int : Option ℤ → ℤ
deref_int none = pos 0
deref_int (some n) = n

abbrev pub has_id : ℕ → EsimRow → Bool
has_id u r = r.id == u

abbrev pub in_org : ℕ → EsimRow → Bool
in_org u r = r.org_id == u

abbrev pub has_package_id : String → PackageRow → Bool
has_package_id id r = str_eq r.id id

abbrev pub cheaper : PackageRow → PackageRow → Bool
cheaper a b = less a.price_usd_cents b.price_usd_cents

abbrev pub created_later : EsimRow → EsimRow → Bool
created_later a b = ltb b.created_at a.created_at

-- The driver's refusal to encode a number that no INTEGER holds.
abbrev pub too_big : Err Sentinel
too_big = other "unable to encode into int4"

abbrev pub storable : Package → Bool
storable k = in_int4 k.data_mb && in_int4 k.validity_days && in_int4 k.price_usd_cents

abbrev pub row_of : Package → PackageRow
row_of k = record {
  id = k.id;
  provider = k.provider;
  label = k.label;
  region = some k.region;
  data_mb = k.data_mb;
  validity_days = k.validity_days;
  price_usd_cents = k.price_usd_cents;
  fetched_at = k.fetched_at;
}

-- `DO UPDATE SET …`: all but `id` and `provider`.
abbrev pub refreshed : Package → PackageRow → PackageRow
refreshed k r = record r {
  label = k.label;
  region = some k.region;
  data_mb = k.data_mb;
  validity_days = k.validity_days;
  price_usd_cents = k.price_usd_cents;
  fetched_at = k.fetched_at;
}

-- `INSERT INTO esim.packages … ON CONFLICT (id) DO UPDATE`
unfoldable pub upsert_package : Package → List PackageRow → List PackageRow
upsert_package k rows =
    if exists (has_package_id k.id) rows
    then update (has_package_id k.id) (refreshed k) rows
    else row_of k ∷ rows

-- The statements of the batch, in order.
abbrev pub upsert_all : List Package → List PackageRow → List PackageRow
upsert_all [] rows = rows
upsert_all (k ∷ ks) rows = upsert_all ks (upsert_package k rows)

abbrev pub all_storable : List Package → Bool
all_storable [] = true
all_storable (k ∷ ks) = storable k && all_storable ks

-- A row of the catalogue scanned into `model.Package`: `COALESCE(region,'')`.
abbrev pub scan_package : PackageRow → Package
scan_package r = record {
  id = r.id;
  provider = r.provider;
  label = r.label;
  region = deref r.region;
  data_mb = r.data_mb;
  validity_days = r.validity_days;
  price_usd_cents = r.price_usd_cents;
  fetched_at = r.fetched_at;
}

abbrev pub in_region : String → PackageRow → Bool
in_region region r = elim r.region [ none ↦ false | some x ↦ str_eq x region ]

-- The optional `WHERE region = $1`.
abbrev pub selected : String → List PackageRow → List PackageRow
selected region rows = if str_eq region "" then rows else select (in_region region) rows

abbrev pub usage_set : ℤ → ℕ → EsimRow → EsimRow
usage_set usage now r = record r { last_usage_mb = usage; updated_at = now }

-- `CASE WHEN $2 = 'active' AND activated_at IS NULL THEN now() ELSE activated_at END`
abbrev pub dated : String → ℕ → Option ℕ → Option ℕ
dated status now none = if str_eq status "active" then some now else none
dated status now (some t) = some t

abbrev pub status_set : String → ℕ → EsimRow → EsimRow
status_set status now r = record r {
  status = status;
  activated_at = dated status now r.activated_at;
  updated_at = now;
}

abbrev pub Answer : Type 0 → Type 0 → Type 0
Answer V A = Result (Err Sentinel) (A × Data V)

module _ {V : Type 0} where
  -- The batch runs as one transaction.
  abbrev pub store_packages : List Package → ℕ → Data V → Answer V (Unit {0})
  store_packages ks n t =
      if all_storable ks
      then ok (tt, record t { packages = upsert_all ks t.packages })
      else err too_big

  abbrev pub select_packages : String → ℕ → Data V → Answer V (List PackageRow)
  select_packages region n t = ok (sort_by cheaper (selected region t.packages), t)

  abbrev pub select_package : String → ℕ → Data V → Answer V (Option PackageRow)
  select_package id n t = ok (find (has_package_id id) t.packages, t)

  abbrev pub found_package : Option PackageRow → Exec (World (Data V)) (Err Sentinel) Package
  found_package none = fail (sentinel package_not_found)
  found_package (some r) = pure (scan_package r)

  -- `PRIMARY KEY (id)`
  abbrev pub add_row : EsimRow → Data V → Answer V EsimRow
  add_row r t =
      if exists (has_id r.id) t.esims
      then err (pg "23505")
      else ok (r, record t { esims = r ∷ t.esims })

module _ (server : Postgres) where
  -- The row that `INSERT` adds: a missing text is stored as '', a missing number as 0.
  abbrev pub new_row : Esim → ℕ → Option ℕ → ℕ → EsimRow
  new_row e org owner n = record {
    id = server.fresh n;
    org_id = org;
    owner_user_id = owner;
    provider = e.provider;
    provider_ref = some (deref e.provider_ref);
    iccid = some (deref e.iccid);
    package_id = some (deref e.package_id);
    package_label = some (deref e.package_label);
    data_mb = some (deref_int e.data_mb);
    validity_days = some (deref_int e.validity_days);
    lpa_string = some (deref e.lpa_string);
    qr_png_base64 = some (deref e.qr_png_base64);
    install_url = some (deref e.install_url);
    status = e.status;
    activated_at = none;
    expires_at = e.expires_at;
    last_usage_mb = pos 0;
    created_at = server.now n;
    updated_at = server.now n;
  }

  -- `RETURNING id::text, created_at, updated_at`, scanned into the argument.
  abbrev pub returned : Esim → EsimRow → Esim
  returned e r = record e {
    id = server.show_uuid r.id;
    created_at = r.created_at;
    updated_at = r.updated_at;
  }

  -- A row scanned into `model.ESIM`.
  abbrev pub scan : EsimRow → Esim
  scan r = record {
    id = server.show_uuid r.id;
    org_id = server.show_uuid r.org_id;
    owner_user_id = Option.map server.show_uuid r.owner_user_id;
    provider = r.provider;
    provider_ref = r.provider_ref;
    iccid = r.iccid;
    package_id = r.package_id;
    package_label = r.package_label;
    data_mb = r.data_mb;
    validity_days = r.validity_days;
    lpa_string = r.lpa_string;
    qr_png_base64 = r.qr_png_base64;
    install_url = r.install_url;
    status = r.status;
    activated_at = r.activated_at;
    expires_at = r.expires_at;
    last_usage_mb = r.last_usage_mb;
    created_at = r.created_at;
    updated_at = r.updated_at;
  }

  module _ {V : Type 0} where
    unfoldable pub upsert_packages : List Package → Exec (World (Data V)) (Err Sentinel) (Unit {0})
    upsert_packages [] = pure tt
    upsert_packages (k ∷ ks) = call server.fault (store_packages (k ∷ ks))

    unfoldable pub list_packages : String → Exec (World (Data V)) (Err Sentinel) (List Package)
    list_packages region = do
      rows ← call server.fault (select_packages region)
      pure (map scan_package rows)

    unfoldable pub get_package : String → Exec (World (Data V)) (Err Sentinel) Package
    get_package id = do row ← call server.fault (select_package id); found_package row

    abbrev pub insert_esim : Esim → ℕ → Data V → Answer V EsimRow
    insert_esim e n t =
        if in_int4 (deref_int e.data_mb) && in_int4 (deref_int e.validity_days)
        then cast (server.parse_uuid e.org_id) (λ org.
          cast_null server (deref e.owner_user_id) λ owner. add_row (new_row e org owner n) t)
        else err too_big

    unfoldable pub create_esim : Esim → Exec (World (Data V)) (Err Sentinel) Esim
    create_esim e = do row ← call server.fault (insert_esim e); pure (returned e row)

    abbrev pub select_by_id : String → ℕ → Data V → Answer V (Option EsimRow)
    select_by_id id n t = cast (server.parse_uuid id) λ u. ok (find (has_id u) t.esims, t)

    abbrev pub or_not_found : Option EsimRow → Exec (World (Data V)) (Err Sentinel) Esim
    or_not_found none = fail (sentinel esim_not_found)
    or_not_found (some r) = pure (scan r)

    unfoldable pub get_esim : String → Exec (World (Data V)) (Err Sentinel) Esim
    get_esim id = do row ← call server.fault (select_by_id id); or_not_found row

    -- `WHERE org_id = $1::uuid ORDER BY created_at DESC LIMIT 200`
    abbrev pub select_by_org : String → ℕ → Data V → Answer V (List EsimRow)
    select_by_org org_id n t =
        cast (server.parse_uuid org_id)
          λ u. ok (take 200 (sort_by created_later (select (in_org u) t.esims)), t)

    unfoldable pub list_by_org : String → Exec (World (Data V)) (Err Sentinel) (List Esim)
    list_by_org org_id = do rows ← call server.fault (select_by_org org_id); pure (map scan rows)

    -- Update the row of an identifier; the result is whether there is one.
    abbrev pub change_row : String → (EsimRow → EsimRow) → Data V → Answer V Bool
    change_row id f t =
        cast (server.parse_uuid id)
          λ u. ok (exists (has_id u) t.esims, record t { esims = update (has_id u) f t.esims })

    abbrev pub set_usage : String → ℤ → ℕ → Data V → Answer V Bool
    set_usage id usage n t =
        if in_int4 usage then change_row id (usage_set usage (server.now n)) t else err too_big

    abbrev pub or_missing : Bool → Exec (World (Data V)) (Err Sentinel) (Unit {0})
    or_missing affected = if affected then pure tt else fail (sentinel esim_not_found)

    unfoldable pub update_usage : String → ℤ → Exec (World (Data V)) (Err Sentinel) (Unit {0})
    update_usage id usage = do
      affected ← call server.fault (set_usage id usage)
      or_missing affected

    unfoldable pub set_status : String → String → Exec (World (Data V)) (Err Sentinel) (Unit {0})
    set_status id status = do
      affected ← call server.fault λ n t. change_row id (status_set status (server.now n)) t
      or_missing affected
