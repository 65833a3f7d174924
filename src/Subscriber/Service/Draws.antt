-- ===== src/Subscriber/Service/Draws.antt =====
-- Choosing an IMSI and drawing keys change no data.
use aerial_ran_platform.Base.{ℕ, String, Option, none, some, List, ◌≡◌, refl, ap, str_eq}
use aerial_ran_platform.Go.Exec.{Leads}
use aerial_ran_platform.Go.Exec.Outcomes.{bind-Leads, pure-Leads, fail_if-Leads, if-Leads}
use aerial_ran_platform.Go.Postgres.{World}
use aerial_ran_platform.Go.Postgres.Outcomes.{call-Leads, Settled}
use aerial_ran_platform.Subscriber.Model.{Data}
use aerial_ran_platform.Subscriber.Repository.{next_msin, count_sims}
use aerial_ran_platform.Subscriber.Repository.Outcomes.{Unchanged}
use aerial_ran_platform.Subscriber.Service.{
  Service, choose_imsi, rand_hex, read_random, no_fault, drawn,
}

module _ (svc : Service) where
  next_msin-Leads :
      (mcc mnc : String) (w : World Data)
      → Leads (λ _ w'. w'.db ≡ w.db) (Unchanged w.db) (next_msin svc.repo mcc mnc) w
  unfolding next_msin
  next_msin-Leads mcc mnc w =
      bind-Leads {Good' = λ _ w'. w'.db ≡ w.db}
        (call-Leads svc.repo.fault (count_sims mcc mnc) (λ f. refl) refl)
        (λ n w' same. pure-Leads _ same) (λ e w' same. same)

  pub choose_imsi-Leads :
      (imsi : String) (w : World Data)
      → Leads (λ _ w'. w'.db ≡ w.db) (Unchanged w.db) (choose_imsi svc imsi) w
  unfolding choose_imsi
  choose_imsi-Leads imsi w =
      if-Leads (str_eq imsi "")
        (λ _.
          bind-Leads (next_msin-Leads svc.plmn_mcc svc.plmn_mnc w) (λ n w' same. pure-Leads _ same)
            (λ e w' same. same))
        (λ _.
          bind-Leads {Bad' = Unchanged w.db} (fail_if-Leads _ _ (λ _. refl))
            (λ _ w' h. pure-Leads _ (ap (λ (v : World Data). v.db) h.1)) (λ e w' same. same))

  drawn-Settled :
      (w : World Data) (o : Option (List ℕ))
      → Settled (λ _ w'. w'.db ≡ w.db) (Unchanged w.db) w (drawn o w.db)
  drawn-Settled w none = refl
  drawn-Settled w (some bytes) = refl

  pub rand_hex-Leads :
      (k : ℕ) (w : World Data) → Leads (λ _ w'. w'.db ≡ w.db) (Unchanged w.db) (rand_hex svc k) w
  unfolding rand_hex
  rand_hex-Leads k w =
      call-Leads no_fault (read_random svc k) (λ f. refl) (drawn-Settled w (svc.random w.tick k))
