-- ===== src/Subscriber/Service/Outcomes.antt =====
-- Where the parts of the SIM operations lead: the check of the owner, and the calls of the core.
use aerial_ran_platform.Base.{ℕ, String, List, Option, none, some, ◌≡◌, eq_iff, str_eq}
use aerial_ran_platform.Go.Errors.{Err}
use aerial_ran_platform.Go.Exec.{Leads}
use aerial_ran_platform.Go.Exec.Outcomes.{
  pure-Leads, fail-Leads, bind-Leads, if-Leads, attempt-Leads,
}
use aerial_ran_platform.Go.Postgres.{Fault, World}
use aerial_ran_platform.Subscriber.Model.{Sentinel, Sim, SimRow, Data}
use aerial_ran_platform.Subscriber.Repository.Outcomes.{Finds, Unchanged, get_by_id-Leads}
use aerial_ran_platform.Subscriber.Service.{Service, Op, owned_by_org, with_core, wrap, joined}

module _ (svc : Service) where
  -- `sim` is the SIM of `id`, and its organisation is the caller's.
  pub record Owns (org_id id : String) (sims : List SimRow) (sim : Sim) : Type 0 where
    pub finds : Finds svc.repo id sims sim
    pub open finds use *
    pub mine : sim.org_id ≡ org_id

  pub owned_by_org-Leads :
      (org_id id : String) (w : World Data)
      → Leads
          (λ sim w'. Owns org_id id w.db.sims sim × (w'.db ≡ w.db))
          (Unchanged w.db)
          (owned_by_org svc org_id id)
          w
  unfolding owned_by_org
  owned_by_org-Leads org_id id w =
      bind-Leads (get_by_id-Leads svc.repo id w)
        (λ sim w' (finds, same).
          if-Leads (str_eq sim.org_id org_id)
            (λ e. pure-Leads _ (record { finds = finds; mine = (eq_iff _ _).0 e }, same))
            (λ e. fail-Leads _ same))
        (λ e w' same. same)

  pub wrap-Leads :
      {A : Type 0} {Good : A → World Data → Type 0} {P : World Data → Type 0} (why : Sentinel)
      {m : Op A} {w : World Data}
      → Leads Good (λ e w'. P w') m w
      → Leads Good (λ e w'. P w') (wrap svc why m) w
  wrap-Leads why h =
      attempt-Leads (joined svc why) h (λ a w' g. pure-Leads _ g) (λ e w' b. fail-Leads _ b)

  -- With no core nothing is done; with one, its part is.
  pub with_core-Leads :
      {Bad : Err Sentinel → World Data → Type 0}
      (Good : Option (ℕ → Option Fault) → World Data → Type 0)
      (f : (ℕ → Option Fault) → Op (Unit {0})) (w : World Data) (o : Option (ℕ → Option Fault))
      → Good none w
      → ((core : ℕ → Option Fault) → Leads (λ _ w'. Good (some core) w') Bad (f core) w)
      → Leads (λ _ w'. Good o w') Bad (with_core svc o f) w
  with_core-Leads Good f w none p q = pure-Leads _ p
  with_core-Leads Good f w (some core) p q = q core
