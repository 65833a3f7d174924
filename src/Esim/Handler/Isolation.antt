-- ===== src/Esim/Handler/Isolation.antt =====
-- What the endpoints by id answer about eSIMs that are not the caller's, and when the provider
-- fails.
use Prim.Native.String
use aerial_ran_platform.Base.{
  ℕ, String, Option, none, some, ◌≡◌, ◌≢◌, ◌⊎◌, inl, inr, refl, find, str_eq, false, trim_space,
  str_eq_refl, str_eq-false,
}
use aerial_ran_platform.Go.Errors.{Err, sentinel, join, errors_is}
use aerial_ran_platform.Go.Exec.{◌>>=◌, ok, err}
use aerial_ran_platform.Go.Postgres.{World, call}
use aerial_ran_platform.Go.Postgres.Outcomes.{after}
use aerial_ran_platform.Jwt.{Claims}
use aerial_ran_platform.Respond.{Response, error, error_text}
use aerial_ran_platform.Esim.Model.{
  Sentinel, same, esim_not_found, package_not_found, bad_input, provider_error, EsimRow, PackageRow,
  Data, OrderRequest, Esim,
}
use aerial_ran_platform.Esim.Repository.{has_id, has_package_id, get_esim, get_package, scan}
use aerial_ran_platform.Esim.Service.{Service, owned_by_org, consult, ask, usage_key}
use aerial_ran_platform.Esim.Service
use aerial_ran_platform.Esim.Handler
use aerial_ran_platform.Esim.Handler.{write_service_err}

-- No eSIM has the identifier, or the one that has it is of another organisation.
abbrev pub NotOwned : {V : Type 0} → Service V → String → Option EsimRow → Type 0
NotOwned svc org_id o =
    (o ≡ none) ⊎ ((r : EsimRow) × (o ≡ some r) × (svc.repo.show_uuid r.org_id ≢ org_id))

-- An error of the provider's own, none of the service's sentinels.
pub record IsForeign (e : Err Sentinel) : Type 0 where
  pub not_esim : errors_is same e esim_not_found ≡ false
  pub not_package : errors_is same e package_not_found ≡ false
  pub not_input : errors_is same e bad_input ≡ false

module _ {V : Type 0} where
  -- The answer of 404, with the tables and the provider left alone.
  abbrev pub Refused : {A : Type 0} → World (Data V) → Response Sentinel A × World (Data V) → Type 0
  Refused w x = x ≡ (error 404 "not_found" (error_text (sentinel esim_not_found)), after w w.db)

  -- 502, with the provider left as it left itself and the tables alone.
  abbrev pub ProviderFailed :
      {A : Type 0}
      → Err Sentinel
      → V
      → World (Data V)
      → Response Sentinel A × World (Data V)
      → Type 0
  ProviderFailed e v w x = x ≡ (
    error 502 "provider_error" (error_text (join (sentinel provider_error) e)),
    after (after w w.db) (record w.db { vendor = v }),
  )

module _ {V : Type 0} (svc : Service V) where
  not_owned :
      (org_id id : String) (u : ℕ) (w : World (Data V))
      → svc.repo.fault w.tick ≡ none
      → svc.repo.parse_uuid id ≡ some u
      → NotOwned svc org_id (find (has_id u) w.db.esims)
      → owned_by_org svc org_id id w ≡ (err (sentinel esim_not_found), after w w.db)
  unfolding owned_by_org get_esim call ◌>>=◌
  not_owned org_id id u w f p (inl e) = rw (f, p, e)
  not_owned org_id id u w f p (inr (r, e, ne)) = rw (f, p, e, str_eq-false _ _ ne)

  owned :
      (org_id id : String) (u : ℕ) (r : EsimRow) (w : World (Data V))
      → svc.repo.fault w.tick ≡ none
      → svc.repo.parse_uuid id ≡ some u
      → find (has_id u) w.db.esims ≡ some r
      → svc.repo.show_uuid r.org_id ≡ org_id
      → owned_by_org svc org_id id w ≡ (ok (scan svc.repo r), after w w.db)
  unfolding owned_by_org get_esim call ◌>>=◌
  owned org_id id u r w f p e mine = rw (f, p, e, mine, str_eq_refl org_id)

  -- For a valid identifier that is not that of an eSIM of the caller's organisation, and when the
  -- read does not fail, reading, metering, activating and cancelling all answer the same 404,
  -- change no data and do not call the provider: whether another organisation has the eSIM does
  -- not show.
  pub foreign_esim_is_not_found :
      (claims : Claims) (id : String) (u : ℕ) (w : World (Data V))
      → svc.repo.fault w.tick ≡ none
      → svc.repo.parse_uuid id ≡ some u
      → NotOwned svc claims.org_id (find (has_id u) w.db.esims)
      → Refused w (Handler.get svc (some claims) id w)
        × Refused w (Handler.refresh_usage svc (some claims) id w)
        × Refused w (Handler.activate svc (some claims) id w)
        × Refused w (Handler.cancel svc (some claims) id w)
  unfolding Handler.get Handler.refresh_usage Handler.activate Handler.cancel Service.get
      Service.refresh_usage Service.mark_activated Service.cancel write_service_err ◌>>=◌
  foreign_esim_is_not_found claims id u w f p n =
      let e = not_owned claims.org_id id u w f p n in (rw e, rw e, rw e, rw e)

  -- The two requests that need the provider's answer.
  pub data Consulting : Type 0 where
    ordering : OrderRequest → Consulting
    metering : String → Consulting

  abbrev pub answer : Claims → Consulting → World (Data V) → Response Sentinel Esim × World (Data V)
  answer claims (ordering req) w = Handler.order svc (some claims) (some req) w
  answer claims (metering id) w = Handler.refresh_usage svc (some claims) id w

  -- The provider is asked, and refuses: to sell a package of the catalogue, or to meter an eSIM of
  -- the caller.
  abbrev pub Refuses : Claims → Consulting → World (Data V) → Err Sentinel → V → Type 0
  Refuses claims (ordering req) w e v =
      (sku : PackageRow) × (str_eq (trim_space claims.org_id) "" ≡ false)
      × (find (has_package_id req.package_id) w.db.packages ≡ some sku)
      × (svc.prov.order sku.id (String.◌++◌ "aerial-" claims.org_id) w.db.vendor ≡ (err e, v))
  Refuses claims (metering id) w e v =
      (u : ℕ) × (r : EsimRow) × (svc.repo.parse_uuid id ≡ some u)
      × (find (has_id u) w.db.esims ≡ some r)
      × (svc.repo.show_uuid r.org_id ≡ claims.org_id)
      × (svc.prov.usage_mb (usage_key svc (scan svc.repo r)) w.db.vendor ≡ (err e, v))

  -- When the provider refuses, with an error of its own, the sale of a package that is in the
  -- catalogue, or to meter an eSIM of the caller, and the read before it does not fail, the answer
  -- is 502 and the tables are left alone.
  pub provider_failure_is_reported :
      (claims : Claims) (c : Consulting) (e : Err Sentinel) (v : V) (w : World (Data V))
      → svc.repo.fault w.tick ≡ none
      → IsForeign e
      → Refuses claims c w e v
      → ProviderFailed e v w (answer claims c w)
  unfolding Handler.order Handler.refresh_usage Service.order Service.refresh_usage get_package
      write_service_err consult ask call ◌>>=◌
  provider_failure_is_reported claims (ordering req) e v w f own (sku, org, listed, refused) =
      rw (org, f, listed, refused, own.not_esim, own.not_package, own.not_input) refl
  provider_failure_is_reported claims (metering id) e v w f own (u, r, p, found, mine, refused) =
      rw
        (
          owned claims.org_id id u r w f p found mine,
          refused,
          own.not_esim,
          own.not_package,
          own.not_input,
        )
        refl
