-- ===== src/Disclosure/Tests.antt =====
-- The theorem at three errors of the database.
use aerial_ran_platform.Base.{ℕ, refl}
use aerial_ran_platform.Go.Errors.{pg, join, other, deadline_exceeded}
use aerial_ran_platform.Iam.Handler as Iam
use aerial_ran_platform.Subscriber.Handler as Subscriber
use aerial_ran_platform.Provision.Handler as Provision
use aerial_ran_platform.Disclosure.{IsGeneric, foreign_errors_hidden}

foreign_errors_hidden_example :
    IsGeneric (Iam.write_service_err {A = ℕ} (pg "42703"))
    × IsGeneric
        (Subscriber.write_service_err {A = ℕ} (join (other "conn closed") deadline_exceeded))
    × (IsGeneric (Provision.create_err {A = ℕ} (pg "22P02"))
        × IsGeneric (Provision.cancel_err {A = ℕ} (pg "22P02")))
foreign_errors_hidden_example =
    foreign_errors_hidden (pg "42703") (join (other "conn closed") deadline_exceeded) (pg "22P02")
      (λ s. refl) (λ s. refl) (λ s. refl)
