-- ===== src/Subscriber/Handler/Isolation.antt =====
-- What the endpoints by id answer about SIMs that are not the caller's, and when the core fails.
use aerial_ran_platform.Base.{
  ℕ, suc, String, Option, none, some, ◌≡◌, ◌≢◌, ◌⊎◌, inl, inr, find, str_eq_refl, str_eq-false,
}
use aerial_ran_platform.Go.Errors.{sentinel, join}
use aerial_ran_platform.Go.Exec.{◌>>=◌, ok, err}
use aerial_ran_platform.Go.Postgres.{World, Fault, of_fault, call}
use aerial_ran_platform.Go.Postgres.Outcomes.{fault_is_no_sentinel, after}
use aerial_ran_platform.Jwt.{Claims}
use aerial_ran_platform.Respond.{Response, error, error_text}
use aerial_ran_platform.Subscriber.Model.{
  Sentinel, same, sim_not_found, deprovisioning, SimRow, Data,
}
use aerial_ran_platform.Subscriber.Core.{delete}
use aerial_ran_platform.Subscriber.Repository.{has_id, get_by_id, scan}
use aerial_ran_platform.Subscriber.Service.{Service, owned_by_org}
use aerial_ran_platform.Subscriber.Service
use aerial_ran_platform.Subscriber.Handler
use aerial_ran_platform.Subscriber.Handler.{write_service_err}

-- No SIM has the identifier, or the one that has it is of another organisation.
abbrev pub NotOwned : Service → String → Option SimRow → Type 0
NotOwned svc org_id o =
    (o ≡ none) ⊎ ((r : SimRow) × (o ≡ some r) × (svc.repo.show_uuid r.org_id ≢ org_id))

module _ (svc : Service) where
  not_owned :
      (org_id id : String) (u : ℕ) (w : World Data)
      → svc.repo.fault w.tick ≡ none
      → svc.repo.parse_uuid id ≡ some u
      → NotOwned svc org_id (find (has_id u) w.db.sims)
      → owned_by_org svc org_id id w ≡ (err (sentinel sim_not_found), after w w.db)
  unfolding owned_by_org get_by_id call ◌>>=◌
  not_owned org_id id u w f p (inl e) = rw (f, p, e)
  not_owned org_id id u w f p (inr (r, e, ne)) = rw (f, p, e, str_eq-false _ _ ne)

  -- The answer of 404 and the data left alone.
  abbrev pub Refused : {A : Type 0} → World Data → Response Sentinel A × World Data → Type 0
  Refused w x = x ≡ (error 404 "not_found" (error_text (sentinel sim_not_found)), after w w.db)

  -- For a valid identifier that is not that of a SIM of the caller's organisation, and when the
  -- read does not fail, reading, suspending, resuming and terminating all answer the same 404 and
  -- change no data: whether another organisation has the SIM does not show.
  pub foreign_is_not_found :
      (claims : Claims) (id : String) (u : ℕ) (w : World Data)
      → svc.repo.fault w.tick ≡ none
      → svc.repo.parse_uuid id ≡ some u
      → NotOwned svc claims.org_id (find (has_id u) w.db.sims)
      → Refused w (Handler.get svc (some claims) id w)
        × Refused w (Handler.suspend svc (some claims) id w)
        × Refused w (Handler.resume svc (some claims) id w)
        × Refused w (Handler.terminate svc (some claims) id w)
  unfolding Handler.get Handler.suspend Handler.resume Handler.terminate Service.get Service.suspend
      Service.resume Service.terminate write_service_err ◌>>=◌
  foreign_is_not_found claims id u w f p n =
      let e = not_owned claims.org_id id u w f p n in (rw e, rw e, rw e, rw e)

  -- The caller's own SIM is found.
  owned :
      (org_id id : String) (u : ℕ) (r : SimRow) (w : World Data)
      → svc.repo.fault w.tick ≡ none
      → svc.repo.parse_uuid id ≡ some u
      → find (has_id u) w.db.sims ≡ some r
      → svc.repo.show_uuid r.org_id ≡ org_id
      → owned_by_org svc org_id id w ≡ (ok (scan svc.repo r), after w w.db)
  unfolding owned_by_org get_by_id call ◌>>=◌
  owned org_id id u r w f p e mine = rw (f, p, e, mine, str_eq_refl org_id)

  -- A removal that the core refuses: 502, and the data are left alone.
  abbrev pub NotRemoved : Fault → World Data → Response Sentinel (Unit {0}) × World Data → Type 0
  NotRemoved e w x = x ≡ (
    error 502 "deprovisioning_failed" (error_text (join (sentinel deprovisioning) (of_fault e))),
    after (after w w.db) w.db,
  )

  -- When the core fails to remove the caller's SIM, suspending and terminating answer 502 and
  -- change no data: a SIM that can still attach is not reported as cut off.
  pub core_failure_is_reported :
      (claims : Claims) (id : String) (u : ℕ) (r : SimRow) (core : ℕ → Option Fault) (e : Fault)
      (w : World Data)
      → svc.repo.fault w.tick ≡ none
      → svc.repo.parse_uuid id ≡ some u
      → find (has_id u) w.db.sims ≡ some r
      → svc.repo.show_uuid r.org_id ≡ claims.org_id
      → svc.open5gs ≡ some core
      → core (suc w.tick) ≡ some e
      → NotRemoved e w (Handler.suspend svc (some claims) id w)
        × NotRemoved e w (Handler.terminate svc (some claims) id w)
  unfolding Handler.suspend Handler.terminate Service.suspend Service.terminate write_service_err
      delete call ◌>>=◌
  core_failure_is_reported claims id u r core e w f p found mine c broken =
      let o = owned claims.org_id id u r w f p found mine in
      (
        rw (o, c, broken) (simp (fault_is_no_sentinel same e)),
        rw (o, c, broken) (simp (fault_is_no_sentinel same e)),
      )
