-- ===== src/Esim/Service.antt =====
-- svc-aerial-esim/internal/service: the catalogue, the orders and the life cycle of an eSIM, over
-- the repository and a provider.
pub mod Outcomes
pub mod Lifecycle
pub mod Timeline
pub mod Dating
pub mod Requests
pub mod Ordering
pub mod Catalog
use Prim.Native.String
use aerial_ran_platform.Base.{
  ℕ, suc, String, Bool, Option, none, some, List, map, str_eq, trim_space, if◌then◌else◌,
}
use aerial_ran_platform.Base.Int.{ℤ, pos, is_zero}
use aerial_ran_platform.Go.Errors.{Err, sentinel, join, other}
use aerial_ran_platform.Go.Exec.{
  Result, ok, err, Exec, pure, fail, gets, fail_if, attempt, ◌>>=◌, ◌>>◌,
}
use aerial_ran_platform.Go.Postgres.{Postgres, World}
use aerial_ran_platform.Esim.Model.{
  Sentinel, provider_error, bad_input, esim_not_found, Package, Esim, OrderRequest, Data,
}
use aerial_ran_platform.Esim.Provider.{PackageOffering, OrderResult, Provider}
use aerial_ran_platform.Esim.Repository
use aerial_ran_platform.Esim.Repository.{
  deref, upsert_packages, get_package, create_esim, get_esim, update_usage, set_status,
}

-- The service's fields, and what lies outside: the clock at each call, and the QR code of a text
-- (`qrcode.Encode`, in base64; none when the text does not fit).
pub record Service (V : Type 0) : Type 0 where
  pub repo : Postgres
  pub prov : Provider Sentinel V
  pub now : ℕ → ℕ
  pub qr_png : String → Option String

abbrev pub str_ptr : String → Option String
str_ptr s = if str_eq s "" then none else some s

abbrev pub int_ptr : ℤ → Option ℤ
int_ptr i = if is_zero i then none else some i

abbrev pub Op : Type 0 → Type 0 → Type 0
Op V A = Exec (World (Data V)) (Err Sentinel) A

module _ {V : Type 0} where
  -- A call of the provider: a call outside that changes nothing but what the provider keeps.
  abbrev pub kept :
      {A : Type 0}
      → World (Data V)
      → Result (Err Sentinel) A × V
      → Result (Err Sentinel) A × World (Data V)
  kept w (r, v) = (r, record { tick = suc w.tick; db = record w.db { vendor = v } })

  unfoldable pub ask : {A : Type 0} → Exec V (Err Sentinel) A → Op V A
  ask m w = kept w (m w.db.vendor)

  -- `errors.Join(model.ErrProvider, err)`
  abbrev pub joined : {A : Type 0} → Result (Err Sentinel) A → Op V A
  joined (ok a) = pure a
  joined (err e) = fail (join (sentinel provider_error) e)

  unfoldable pub consult : {A : Type 0} → Exec V (Err Sentinel) A → Op V A
  consult m = attempt (ask m) >>= joined

  module _ (svc : Service V) where
    abbrev pub package_of : ℕ → PackageOffering → Package
    package_of now o = record {
      id = o.id;
      provider = svc.prov.name;
      label = o.label;
      region = o.region;
      data_mb = o.data_mb;
      validity_days = o.validity_days;
      price_usd_cents = o.price_usd_cents;
      fetched_at = now;
    }

    unfoldable pub refresh_catalog : String → Op V (List Package)
    refresh_catalog region = do
      offers ← consult (svc.prov.catalog region)
      now ← gets (λ w. svc.now w.tick)
      upsert_packages svc.repo (map (package_of now) offers)
      pure (map (package_of now) offers)

    unfoldable pub list_packages : String → Op V (List Package)
    list_packages region = Repository.list_packages svc.repo region

    abbrev pub qr_of : String → String
    qr_of lpa = if str_eq lpa "" then "" else deref (svc.qr_png lpa)

    abbrev pub new_esim : String → OrderRequest → Package → OrderResult → Esim
    new_esim org_id req pkg res = record {
      id = "";
      org_id = org_id;
      owner_user_id = req.owner_user_id;
      provider = svc.prov.name;
      provider_ref = str_ptr res.provider_ref;
      iccid = str_ptr res.iccid;
      package_id = str_ptr pkg.id;
      package_label = str_ptr pkg.label;
      data_mb = int_ptr pkg.data_mb;
      validity_days = int_ptr pkg.validity_days;
      lpa_string = str_ptr res.lpa_string;
      qr_png_base64 = str_ptr (qr_of res.lpa_string);
      install_url = str_ptr res.install_url;
      status = "ordered";
      activated_at = none;
      expires_at = res.expires_at;
      last_usage_mb = pos 0;
      created_at = 0;
      updated_at = 0;
    }

    unfoldable pub order : String → OrderRequest → Op V Esim
    order org_id req = do
      fail_if (str_eq (trim_space org_id) "") (join (sentinel bad_input) (other "org_id required"))
      pkg ← get_package svc.repo req.package_id
      res ← consult (svc.prov.order pkg.id (String.◌++◌ "aerial-" org_id))
      create_esim svc.repo (new_esim org_id req pkg res)

    unfoldable pub owned_by_org : String → String → Op V Esim
    owned_by_org org_id id = do
      e ← get_esim svc.repo id
      if str_eq e.org_id org_id then pure e else fail (sentinel esim_not_found)

    unfoldable pub get : String → String → Op V Esim
    get org_id id = owned_by_org org_id id

    unfoldable pub list_by_org : String → Op V (List Esim)
    list_by_org org_id = Repository.list_by_org svc.repo org_id

    -- Airalo keys the usage by the ICCID, the others by their own reference.
    abbrev pub usage_key : Esim → String
    usage_key e = elim e.iccid [
      | none ↦ deref e.provider_ref
      | some iccid ↦ if str_eq svc.prov.name "airalo" then iccid else deref e.provider_ref
    ]

    unfoldable pub refresh_usage : String → String → Op V Esim
    refresh_usage org_id id = do
      e ← owned_by_org org_id id
      usage ← consult (svc.prov.usage_mb (usage_key e))
      update_usage svc.repo id usage
      get_esim svc.repo id

    unfoldable pub mark_activated : String → String → Op V (Unit {0})
    mark_activated org_id id = do owned_by_org org_id id; set_status svc.repo id "active"

    -- `if e.ProviderRef != nil { _ = s.prov.Cancel(…) }`
    abbrev pub withdraw : Option String → Op V (Unit {0})
    withdraw none = pure tt
    withdraw (some ref) = attempt (ask (svc.prov.cancel ref)) >> pure tt

    unfoldable pub cancel : String → String → Op V (Unit {0})
    cancel org_id id = do
      e ← owned_by_org org_id id
      withdraw e.provider_ref
      set_status svc.repo id "cancelled"
