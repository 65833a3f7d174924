-- ===== src/Disclosure.antt =====
-- What an answer shows of an error that came from the database: lib-aerial-go/respond and the
-- error tables of the handlers.
mod Tests
use aerial_ran_platform.Base.{
  ℕ, String, Bool, true, false, ◌≡◌, refl, ◌⊎◌, inl, inr, Bool-cases, if◌then◌else◌,
}
use aerial_ran_platform.Go.Errors.{Err, errors_is, is_deadline, is_canceled, as_pg, code_is}
use aerial_ran_platform.Go.Postgres.{Fault, server, timed_out, withdrawn, connection, of_fault}
use aerial_ran_platform.Respond.{Response, error, text, db_error}
use aerial_ran_platform.Iam.Handler as Iam
use aerial_ran_platform.Iam.Model as Accounts
use aerial_ran_platform.Subscriber.Handler as Subscriber
use aerial_ran_platform.Subscriber.Model as Sims
use aerial_ran_platform.Provision.Handler as Provision
use aerial_ran_platform.Provision.Model as Plans

-- One of four answers, with every text written out: nothing in it depends on the error.
abbrev pub IsGeneric : {S A : Type 0} → Response S A → Type 0
IsGeneric r =
    (r ≡ error 504 "deadline_exceeded" (text "request timed out"))
    ⊎ (r ≡ error 499 "canceled" (text "request canceled"))
    ⊎ (r ≡ error 400 "bad_request" (text "malformed value in request"))
    ⊎ (r ≡ error 500 "internal" (text "internal server error"))

-- An error that none of the service's sentinels is in.
abbrev pub IsForeign : {S : Type 0} → (S → S → Bool) → Err S → Type 0
IsForeign {S} same e = (s : S) → errors_is same e s ≡ false

db_error-IsGeneric : {S A : Type 0} (e : Err S) → IsGeneric (db_error {A = A} e)
unfolding db_error
db_error-IsGeneric e = elim (Bool-cases (is_deadline e)) [
  | inl d ↦ inl (rw d refl)
  | inr d ↦ elim (Bool-cases (is_canceled e)) [
    | inl c ↦ inr (inl (rw (d, c) refl))
    | inr c ↦ elim (Bool-cases (code_is (as_pg e) "22P02")) [
      | inl p ↦ inr (inr (inl (rw (d, c, p) refl)))
      | inr p ↦ inr (inr (inr (rw (d, c, p) refl)))
    ]
  ]
]

iam-IsGeneric :
    {A : Type 0} (e : Err Accounts.Sentinel)
    → IsForeign Accounts.same e
    → IsGeneric (Iam.write_service_err {A = A} e)
unfolding Iam.write_service_err
iam-IsGeneric e h =
    rw
      (
        h Accounts.user_not_found,
        h Accounts.org_not_found,
        h Accounts.token_not_found,
        h Accounts.user_exists,
        h Accounts.bad_credentials,
        h Accounts.token_revoked,
        h Accounts.token_expired,
        h Accounts.token_reuse,
        h Accounts.invalid_argument,
        h Accounts.reuse_revoke_failed,
      )
      (db_error-IsGeneric e)

subscriber-IsGeneric :
    {A : Type 0} (e : Err Sims.Sentinel)
    → IsForeign Sims.same e
    → IsGeneric (Subscriber.write_service_err {A = A} e)
unfolding Subscriber.write_service_err
subscriber-IsGeneric e h =
    rw
      (
        h Sims.sim_not_found,
        h Sims.sim_exists,
        h Sims.bad_input,
        h Sims.provisioning,
        h Sims.deprovisioning,
      )
      (db_error-IsGeneric e)

provision-IsGeneric :
    {A : Type 0} (e : Err Plans.Sentinel)
    → IsForeign Plans.same e
    → IsGeneric (Provision.create_err {A = A} e) × IsGeneric (Provision.cancel_err {A = A} e)
provision-IsGeneric e h = (
  rw (h Plans.plan_not_found, h Plans.sub_exists) (db_error-IsGeneric e),
  rw (h Plans.sub_not_found) (db_error-IsGeneric e),
)

-- Errors in which none of the service's sentinels stands are answered by the error tables of the
-- accounts, the SIMs and the subscriptions with one of the same four answers, whose status, code
-- and message are fixed: 504 "request timed out", 499 "request canceled", 400 "malformed value in
-- request", 500 "internal server error".
pub foreign_errors_hidden :
    {A : Type 0} (accounts : Err Accounts.Sentinel) (sims : Err Sims.Sentinel)
    (plans : Err Plans.Sentinel)
    → IsForeign Accounts.same accounts
    → IsForeign Sims.same sims
    → IsForeign Plans.same plans
    → IsGeneric (Iam.write_service_err {A = A} accounts)
      × IsGeneric (Subscriber.write_service_err {A = A} sims)
      × (IsGeneric (Provision.create_err {A = A} plans)
          × IsGeneric (Provision.cancel_err {A = A} plans))
foreign_errors_hidden accounts sims plans a s p =
    (iam-IsGeneric accounts a, subscriber-IsGeneric sims s, provision-IsGeneric plans p)
