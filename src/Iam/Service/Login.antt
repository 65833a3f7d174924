-- ===== src/Iam/Service/Login.antt =====
-- Who may log in.
use aerial_ran_platform.Base.{
  String, true, false, Option, none, some, ◌≡◌, ◌⊎◌, inl, inr, refl, find,
}
use aerial_ran_platform.Go.Errors.{sentinel}
use aerial_ran_platform.Go.Exec.{err, ◌>>=◌}
use aerial_ran_platform.Go.Postgres.{World, call}
use aerial_ran_platform.Go.Postgres.Outcomes.{after}
use aerial_ran_platform.Iam.Model.{bad_credentials, UserRow, LoginRequest, Data}
use aerial_ran_platform.Iam.Repository.{has_email, get_user_by_email}
use aerial_ran_platform.Iam.Service.{Service, email_of, login}

-- No such user, a user who is not active, or a password that bcrypt does not match.
abbrev pub IsRefused : Service → String → Option UserRow → Type 0
IsRefused svc password none = Unit
IsRefused svc password (some r) =
    (r.is_active ≡ false) ⊎ (svc.check_password r.password_hash password ≡ false)

module _ (svc : Service) (req : LoginRequest) (w : World Data) where
  -- When the read of the user does not fail, an unknown address, an inactive user and a wrong
  -- password are answered by the same `ErrBadCredentials` after one statement, and nothing changes:
  -- which of the three it was does not show.
  pub refused_alike :
      svc.repo.fault w.tick ≡ none
      → IsRefused svc req.password (find (has_email (email_of svc req.email)) w.db.users)
      → login svc req w ≡ (err (sentinel bad_credentials), after w w.db)
  unfolding login get_user_by_email call ◌>>=◌
  refused_alike f refused = go (find (has_email (email_of svc req.email)) w.db.users) refl refused
    where
      go :
          (o : Option UserRow)
          → find (has_email (email_of svc req.email)) w.db.users ≡ o
          → IsRefused svc req.password o
          → login svc req w ≡ (err (sentinel bad_credentials), after w w.db)
      go none e h = rw (f, e)
      go (some r) e (inl inactive) = rw (f, e, inactive)
      go (some r) e (inr wrong) =
          elim r.is_active
              as (λ b.
                r.is_active ≡ b
                → login svc req w ≡ (err (sentinel bad_credentials), after w w.db)) [
                  | true ↦ λ a. rw (f, e, a, wrong)
                  | false ↦ λ a. rw (f, e, a)
                ]
            refl
