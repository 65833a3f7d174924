-- ===== src/Esim/Service/Requests.antt =====
-- Any sequence of requests to the eSIM service, from any tenants, with any faults and any provider.
use aerial_ran_platform.Base.{ℕ, String, some, List, [], ◌∷◌, ◌≡◌, ◌≢◌, find, All}
use aerial_ran_platform.Go.Errors.{Err}
use aerial_ran_platform.Go.Exec.{Result, ok, err, Outcome}
use aerial_ran_platform.Go.Postgres.{World}
use aerial_ran_platform.Esim.Model.{Sentinel, EsimRow, Data, OrderRequest}
use aerial_ran_platform.Esim.Repository.{has_id}
use aerial_ran_platform.Esim.Service.{
  Service, Op, order, get, list_by_org, refresh_usage, mark_activated, cancel, refresh_catalog,
  list_packages,
}
use aerial_ran_platform.Esim.Service.Lifecycle.{
  Step, Steps, order-Steps, refresh_usage-Steps, mark_activated-Steps, cancel-Steps,
  refresh_catalog-Steps, get-Steps, list_by_org-Steps, list_packages-Steps,
}
use aerial_ran_platform.Esim.Service.Timeline.{
  Continues-refl, Continues-trans, Continued, step-Continued, step-others,
}
use aerial_ran_platform.Esim.Service.Dating.{IsDated, step-IsDated}

pub data Request : Type 0 where
  ordering : String → OrderRequest → Request
  getting metering activating cancelling : String → String → Request
  listing : String → Request
  refreshing_catalog listing_packages : String → Request

-- The organisation that asks; the catalogue's endpoints know of none.
abbrev pub caller : Request → String
caller (ordering org_id req) = org_id
caller (getting org_id id) = org_id
caller (metering org_id id) = org_id
caller (activating org_id id) = org_id
caller (cancelling org_id id) = org_id
caller (listing org_id) = org_id
caller _ = ""

module _ {V : Type 0} (svc : Service V) where
  unfoldable pub serve : Request → World (Data V) → World (Data V)
  serve (ordering org_id req) w = (order svc org_id req w).1
  serve (getting org_id id) w = (get svc org_id id w).1
  serve (metering org_id id) w = (refresh_usage svc org_id id w).1
  serve (activating org_id id) w = (mark_activated svc org_id id w).1
  serve (cancelling org_id id) w = (cancel svc org_id id w).1
  serve (listing org_id) w = (list_by_org svc org_id w).1
  serve (refreshing_catalog region) w = (refresh_catalog svc region w).1
  serve (listing_packages region) w = (list_packages svc region w).1

  unfoldable pub serve_all : List Request → World (Data V) → World (Data V)
  serve_all [] w = w
  serve_all (r ∷ rs) w = serve_all rs (serve r w)

  outcome_step :
      {A : Type 0} (org_id : String) (w : World (Data V))
      (x : Result (Err Sentinel) A × World (Data V))
      → Outcome
          (λ _ w'. Step svc.repo org_id w.db.esims w'.db.esims)
          (λ e w'. Step svc.repo org_id w.db.esims w'.db.esims)
          x
      → Step svc.repo org_id w.db.esims x.1.db.esims
  outcome_step org_id w (ok a, w') h = h
  outcome_step org_id w (err e, w') h = h

  reached :
      {A : Type 0} (org_id : String) (m : Op V A) (w : World (Data V))
      → Steps svc org_id w.db.esims m w
      → Step svc.repo org_id w.db.esims (m w).1.db.esims
  reached org_id m w h = outcome_step org_id w (m w) h.at

  -- Every request, whatever it returns and whatever fails on its way, changes the table of eSIMs
  -- by one step of the life cycle of its caller's eSIMs: nothing, a new eSIM of the caller, or the
  -- usage, the activation or the cancellation of one that the caller owns.
  pub serve_refines :
      (r : Request) (w : World (Data V)) → Step svc.repo (caller r) w.db.esims (serve r w).db.esims
  unfolding serve
  serve_refines (ordering org_id req) w =
      reached org_id (order svc org_id req) w (order-Steps svc org_id req w)
  serve_refines (getting org_id id) w =
      reached org_id (get svc org_id id) w (get-Steps svc org_id id w)
  serve_refines (metering org_id id) w =
      reached org_id (refresh_usage svc org_id id) w (refresh_usage-Steps svc org_id id w)
  serve_refines (activating org_id id) w =
      reached org_id (mark_activated svc org_id id) w (mark_activated-Steps svc org_id id w)
  serve_refines (cancelling org_id id) w =
      reached org_id (cancel svc org_id id) w (cancel-Steps svc org_id id w)
  serve_refines (listing org_id) w =
      reached org_id (list_by_org svc org_id) w (list_by_org-Steps svc org_id w)
  serve_refines (refreshing_catalog region) w =
      reached "" (refresh_catalog svc region) w (refresh_catalog-Steps svc "" region w)
  serve_refines (listing_packages region) w =
      reached "" (list_packages svc region) w (list_packages-Steps svc "" region w)

  -- Through any sequence of requests an eSIM that was sold stays in the table, with its identifier,
  -- its organisation and what was bought, and its first activation time never changes once it is
  -- set.
  pub serve_all-Continued :
      (rs : List Request) (w : World (Data V)) (k : ℕ) (r : EsimRow)
      → find (has_id k) w.db.esims ≡ some r
      → Continued k r (serve_all rs w).db.esims
  unfolding serve_all
  serve_all-Continued [] w k r found = (r, found, Continues-refl r)
  serve_all-Continued (q ∷ rs) w k r found =
      let (r1, found1, c1) = step-Continued svc.repo (caller q) _ _ k r (serve_refines q w) found in
      let (r2, found2, c2) = serve_all-Continued rs (serve q w) k r1 found1 in
      (r2, found2, Continues-trans c1 c2)

  -- If every active eSIM has an activation time, this is so after any sequence of requests.
  pub serve_all-IsDated :
      (rs : List Request) (w : World (Data V))
      → All IsDated w.db.esims
      → All IsDated (serve_all rs w).db.esims
  unfolding serve_all
  serve_all-IsDated [] w h = h
  serve_all-IsDated (q ∷ rs) w h =
      serve_all-IsDated rs (serve q w) (step-IsDated svc.repo (caller q) _ _ (serve_refines q w) h)

  -- Through any requests of other callers, the row of an organisation's eSIM stands as it stood.
  pub serve_all_foreign :
      (rs : List Request) (w : World (Data V)) (k : ℕ) (r : EsimRow)
      → All (λ q. svc.repo.show_uuid r.org_id ≢ caller q) rs
      → find (has_id k) w.db.esims ≡ some r
      → find (has_id k) (serve_all rs w).db.esims ≡ some r
  unfolding serve_all
  serve_all_foreign [] w k r others found = found
  serve_all_foreign (q ∷ rs) w k r (other, others) found =
      serve_all_foreign rs (serve q w) k r others
        (step-others svc.repo (caller q) _ _ k r (serve_refines q w) found other)
