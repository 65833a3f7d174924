-- ===== src/RanControl/Handler/Errors.antt =====
-- What each outcome of a creation is answered with.
use aerial_ran_platform.Base.{
  String, true, false, some, ◌≡◌, ◌⊎◌, inl, inr, refl, str_eq, Bool-cases,
}
use aerial_ran_platform.Go.Errors.{Err, errors_is, sentinel, join, other}
use aerial_ran_platform.Go.Exec.{Result, ok, err, ◌>>=◌}
use aerial_ran_platform.Respond.{Response, json, error, error_text}
use aerial_ran_platform.RanControl.Gnb
use aerial_ran_platform.RanControl.Gnb.{
  Sentinel, invalid_request, Value, CreateRequest, GNodeB, Cluster, resource, to_view,
}
use aerial_ran_platform.RanControl.Handler.{same, Tests, create_gnb}

-- The statuses and codes of the API, against what the cluster said: 201 with the view of the
-- object, or the cluster's error under 400 when it is the client's own, 409 when the object exists,
-- and 502 otherwise.
abbrev pub Answers :
    {W : Type 0} → Tests → Result (Err Sentinel) Value × W → Response Sentinel GNodeB × W → Type 0
Answers tests (ok v, w') x = x ≡ (json 201 (to_view v), w')
Answers tests (err e, w') x =
    ((errors_is same e invalid_request ≡ true) × (x ≡ (error 400 "bad_request" (error_text e), w')))
    ⊎ ((errors_is same e invalid_request ≡ false)
        × (tests.is_already_exists e ≡ true)
        × (x ≡ (error 409 "conflict" (error_text e), w')))
    ⊎ ((errors_is same e invalid_request ≡ false)
        × (tests.is_already_exists e ≡ false)
        × (x ≡ (error 502 "k8s_error" (error_text e), w')))

module _ {W : Type 0} (tests : Tests) (cluster : Cluster W) (namespace : String)
    (req : CreateRequest) (w : W) where
  asked-Answers :
      (said : Result (Err Sentinel) Value × W)
      → cluster.create_object namespace (resource namespace req) w ≡ said
      → str_eq req.name "" ≡ false
      → Answers tests said (create_gnb tests (some cluster) namespace (some req) w)
  unfolding create_gnb Gnb.create ◌>>=◌
  asked-Answers (ok v, w') e n = rw (n, e) refl
  asked-Answers (err x, w') e n = elim (Bool-cases (errors_is same x invalid_request)) [
    | inl own ↦ inl (own, rw (n, e, own) refl)
    | inr foreign ↦ elim (Bool-cases (tests.is_already_exists x)) [
      | inl taken ↦ inr (inl (foreign, taken, rw (n, e, foreign, taken) refl))
      | inr free ↦ inr (inr (foreign, free, rw (n, e, foreign, free) refl))
    ]
  ]

  -- A creation without a name is answered 400 and does not reach the cluster. One with a name is
  -- answered 201 with the view of the object that the cluster returned, or, when the cluster gives
  -- an error, 400 when it is an invalid request, 409 when the object exists and 502 otherwise, with
  -- the world as the cluster left it.
  pub create_gnb_outcome :
      ((str_eq req.name "" ≡ true)
        × (create_gnb tests (some cluster) namespace (some req) w ≡ (
          error 400 "bad_request"
              (error_text (join (sentinel invalid_request) (other "name required"))),
          w,
        )))
      ⊎ ((str_eq req.name "" ≡ false)
          × Answers tests
              (cluster.create_object namespace (resource namespace req) w)
              (create_gnb tests (some cluster) namespace (some req) w))
  unfolding create_gnb Gnb.create ◌>>=◌
  create_gnb_outcome = elim (Bool-cases (str_eq req.name "")) [
    | inl n ↦ inl (n, rw n refl)
    | inr n ↦ inr (n, asked-Answers _ refl n)
  ]
