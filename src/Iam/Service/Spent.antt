-- ===== src/Iam/Service/Spent.antt =====
-- A revoked refresh token through any sequence of requests.
use aerial_ran_platform.Base.{String, List, [], ◌∷◌, str_eq}
use aerial_ran_platform.Go.Errors.{Err, errors_is}
use aerial_ran_platform.Go.Exec.{Result, ok, err}
use aerial_ran_platform.Go.Exec.Keeps.{
  pure-Keeps, fail-Keeps, gets-Keeps, bind-Keeps, attempt-Keeps, if-Keeps, fail_if-Keeps,
}
use aerial_ran_platform.Go.Postgres.{World}
use aerial_ran_platform.Go.Postgres.Keeps.{KeepsData}
use aerial_ran_platform.Iam.Model.{
  Sentinel, same, org_not_found, Organization, User, SignupRequest, LoginRequest, Data, Loaded,
  loaded, absent, broken, Looked, valid, revoked, expired,
}
use aerial_ran_platform.Iam.Repository.{checked}
use aerial_ran_platform.Iam.Repository.Spent.{
  Spent, store-KeepsSpent, revoke_family-KeepsSpent, revoke_token-KeepsSpent,
  find_refresh_token-KeepsSpent, upsert_device-KeepsSpent, create_org-KeepsSpent,
  get_org_by_slug-KeepsSpent, create_user-KeepsSpent, get_user_by_email-KeepsSpent,
  get_user_by_id-KeepsSpent,
}
use aerial_ran_platform.Iam.Service.{
  Service, outside, issue_tokens, org_or_new, signup, known_user, device_for, login, reuse_response,
  rotate, refresh, logout, me,
}

-- What a client may ask for.
pub data Request : Type 0 where
  signing_up : SignupRequest → Request
  logging_in : LoginRequest → Request
  refreshing : String → String → Request
  logging_out asking_me : String → Request

module _ (svc : Service) where
  unfoldable pub serve : Request → World Data → World Data
  serve (signing_up req) w = (signup svc req w).1
  serve (logging_in req) w = (login svc req w).1
  serve (refreshing raw fingerprint) w = (refresh svc raw fingerprint w).1
  serve (logging_out raw) w = (logout svc raw w).1
  serve (asking_me user_id) w = (me svc user_id w).1

  unfoldable pub serve_all : List Request → World Data → World Data
  serve_all [] w = w
  serve_all (r ∷ rs) w = serve_all rs (serve r w)

  module _ (h : String) where
    outside-Keeps : {A : Type 0} (r : Result String A) → KeepsData (Spent h) (outside svc r)
    outside-Keeps (ok a) = pure-Keeps _
    outside-Keeps (err e) = fail-Keeps _

    checked-Keeps : {A : Type 0} (l : Loaded A) → KeepsData (Spent h) (checked l)
    checked-Keeps (loaded a) = pure-Keeps _
    checked-Keeps (absent e) = fail-Keeps _
    checked-Keeps (broken e) = fail-Keeps _

    known_user-Keeps : (l : Loaded User) → KeepsData (Spent h) (known_user svc l)
    known_user-Keeps (loaded a) = pure-Keeps _
    known_user-Keeps (absent e) = fail-Keeps _
    known_user-Keeps (broken e) = fail-Keeps _

    issue_tokens-Keeps :
        (u : User) (device_id family_id : String)
        → KeepsData (Spent h) (issue_tokens svc u device_id family_id)
    unfolding issue_tokens
    issue_tokens-Keeps u device_id family_id = bind-Keeps _ _ (gets-Keeps _) λ n.
        bind-Keeps _ _ (outside-Keeps _)
          λ access. bind-Keeps _ _ (store-KeepsSpent h svc.repo svc.clock _) λ _. pure-Keeps _

    org_or_new-Keeps :
        (name slug : String) (r : Result (Err Sentinel) Organization)
        → KeepsData (Spent h) (org_or_new svc name slug r)
    org_or_new-Keeps name slug (ok org) = pure-Keeps _
    org_or_new-Keeps name slug (err e) =
        if-Keeps (errors_is same e org_not_found) _ _
          (create_org-KeepsSpent h svc.repo svc.clock name slug) (fail-Keeps _)

    signup-Keeps : (req : SignupRequest) → KeepsData (Spent h) (signup svc req)
    unfolding signup
    signup-Keeps req = bind-Keeps _ _ (fail_if-Keeps _ _) λ _.
        bind-Keeps _ _ (fail_if-Keeps _ _) λ _.
          bind-Keeps _ _ (get_user_by_email-KeepsSpent h svc.repo svc.clock _) λ existing.
            bind-Keeps _ _ (fail_if-Keeps _ _) λ _.
              bind-Keeps _ _ (attempt-Keeps _ (get_org_by_slug-KeepsSpent h svc.repo svc.clock _))
                λ found. bind-Keeps _ _ (org_or_new-Keeps _ _ found) λ org.
                  bind-Keeps _ _ (gets-Keeps _) λ n.
                    bind-Keeps _ _ (outside-Keeps _)
                      λ hash. create_user-KeepsSpent h svc.repo svc.clock _

    device_for-Keeps :
        (u : User) (fingerprint name device_id : String)
        → KeepsData (Spent h) (device_for svc u fingerprint name device_id)
    device_for-Keeps u fingerprint name device_id =
        if-Keeps (str_eq fingerprint "") _ _ (pure-Keeps _)
          (bind-Keeps _ _ (upsert_device-KeepsSpent h svc.repo svc.clock _ _ _) λ d. pure-Keeps _)

    login-Keeps : (req : LoginRequest) → KeepsData (Spent h) (login svc req)
    unfolding login
    login-Keeps req = bind-Keeps _ _ (get_user_by_email-KeepsSpent h svc.repo svc.clock _) λ found.
        bind-Keeps _ _ (known_user-Keeps found) λ u. bind-Keeps _ _ (fail_if-Keeps _ _) λ _.
          bind-Keeps _ _ (fail_if-Keeps _ _) λ _.
            bind-Keeps _ _ (device_for-Keeps u _ _ _)
              λ device_id. bind-Keeps _ _ (gets-Keeps _) λ n. issue_tokens-Keeps _ _ _

    reuse_response-Keeps :
        (r : Result (Err Sentinel) (Unit {0})) → KeepsData (Spent h) (reuse_response svc r)
    reuse_response-Keeps (ok _) = fail-Keeps _
    reuse_response-Keeps (err e) = fail-Keeps _

    rotate-Keeps :
        (x fingerprint : String) (l : Looked) → KeepsData (Spent h) (rotate svc x fingerprint l)
    rotate-Keeps x fingerprint (valid rt) =
        bind-Keeps _ _ (revoke_token-KeepsSpent h svc.repo svc.clock x) λ _.
          bind-Keeps _ _ (get_user_by_id-KeepsSpent h svc.repo svc.clock _) λ found.
            bind-Keeps _ _ (checked-Keeps found)
              λ u. bind-Keeps _ _ (device_for-Keeps u _ _ _) λ device_id. issue_tokens-Keeps _ _ _
    rotate-Keeps x fingerprint (revoked rt) =
        bind-Keeps _ _ (attempt-Keeps _ (revoke_family-KeepsSpent h svc.repo svc.clock _))
          reuse_response-Keeps
    rotate-Keeps x fingerprint (expired rt) = fail-Keeps _

    refresh-Keeps : (raw fingerprint : String) → KeepsData (Spent h) (refresh svc raw fingerprint)
    unfolding refresh
    refresh-Keeps raw fingerprint =
        bind-Keeps _ _ (find_refresh_token-KeepsSpent h svc.repo svc.clock _)
          λ found. rotate-Keeps _ fingerprint found

    me-Keeps : (user_id : String) → KeepsData (Spent h) (me svc user_id)
    unfolding me
    me-Keeps user_id =
        bind-Keeps _ _ (get_user_by_id-KeepsSpent h svc.repo svc.clock _) checked-Keeps

    serve-Spent : (r : Request) (w : World Data) → Spent h w.db → Spent h (serve r w).db
    unfolding serve logout
    serve-Spent (signing_up req) w s = (signup-Keeps req).at w s
    serve-Spent (logging_in req) w s = (login-Keeps req).at w s
    serve-Spent (refreshing raw fingerprint) w s = (refresh-Keeps raw fingerprint).at w s
    serve-Spent (logging_out raw) w s = (revoke_token-KeepsSpent h svc.repo svc.clock _).at w s
    serve-Spent (asking_me user_id) w s = (me-Keeps user_id).at w s

    -- A refresh token that is revoked stays revoked, whatever requests follow and whatever of them
    -- fails.
    pub serve_all-Spent :
        (rs : List Request) (w : World Data) → Spent h w.db → Spent h (serve_all rs w).db
    unfolding serve_all
    serve_all-Spent [] w s = s
    serve_all-Spent (r ∷ rs) w s = serve_all-Spent rs (serve r w) (serve-Spent r w s)
