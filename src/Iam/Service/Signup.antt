-- ===== src/Iam/Service/Signup.antt =====
-- What `Signup` leaves behind.
use aerial_ran_platform.Base.{
  ℕ, String, Bool, true, false, Option, none, some, List, ◌∷◌, ◌≡◌, refl, sym, ap, ◌∙◌, exists,
  Bool-cases, inl, inr,
}
use aerial_ran_platform.Go.Errors.{Err, errors_is}
use aerial_ran_platform.Go.Exec.{Result, ok, err, Leads, gets, fail_if, ◌>>=◌}
use aerial_ran_platform.Go.Exec.Outcomes.{
  weaken, pure-Leads, fail-Leads, bind-Leads, attempt-Leads, fail_if-Leads, if-Leads, gets-Leads,
}
use aerial_ran_platform.Go.Postgres.{World}
use aerial_ran_platform.Go.Postgres.Outcomes.{call-Leads, cast-Settled, Settled}
use aerial_ran_platform.Iam.Model.{
  Sentinel, same as is_same, org_not_found, OrgRow, UserRow, Data, Organization, User,
  SignupRequest,
}
use aerial_ran_platform.Iam.Repository.{
  create_org, get_org_by_slug, org_found, create_user, add_user, user_row, get_user_by_email,
  found_user, user_clashes, org_clashes, org_id_is,
}
use aerial_ran_platform.Iam.Service.{
  Service, signup, tick_of, org_name_of, org_slug_of, org_or_new, outside, new_user, email_of,
}

-- One user was added, of an organisation on record, under an address and an identifier that no
-- user had, active and with the highest role.
pub record IsSignedUp (svc : Service) (req : SignupRequest) (us : List UserRow) (u : User)
    (w : World Data) : Type 0 where
  pub row : UserRow
  pub users : w.db.users ≡ row ∷ us
  pub fresh : exists (user_clashes row.id row.email) us ≡ false
  pub email : row.email ≡ email_of svc req.email
  pub role : row.role ≡ "superadmin"
  pub active : row.is_active ≡ true
  pub org : exists (org_id_is row.org_id) w.db.organizations ≡ true
  pub named : u.id ≡ svc.repo.show_uuid row.id

abbrev pub SameUsers : List UserRow → World Data → Type 0
SameUsers us w = w.db.users ≡ us

module _ (svc : Service) (us : List UserRow) where
  abbrev Same : {A : Type 0} → A → World Data → Type 0
  Same a w = SameUsers us w

  org_found-Leads :
      (o : Option OrgRow) (w : World Data)
      → SameUsers us w
      → Leads Same Same (org_found svc.repo o) w
  org_found-Leads none w s = fail-Leads _ s
  org_found-Leads (some r) w s = pure-Leads _ s

  get_org-Leads :
      (slug : String) (w : World Data)
      → SameUsers us w
      → Leads Same Same (get_org_by_slug svc.repo slug) w
  unfolding get_org_by_slug
  get_org-Leads slug w s =
      bind-Leads {Bad' = Same} {Good' = Same} (call-Leads svc.repo.fault _ (λ f. s) s)
        (λ o w' s'. org_found-Leads o w' s') (λ e w' s'. s')

  create_org-Leads :
      (name slug : String) (w : World Data)
      → SameUsers us w
      → Leads Same Same (create_org svc.repo name slug) w
  unfolding create_org
  create_org-Leads name slug w s =
      bind-Leads {Bad' = Same} {Good' = Same}
        (call-Leads svc.repo.fault _ (λ f. s)
          (elim (Bool-cases
            (exists (org_clashes (svc.repo.fresh w.tick) slug) w.db.organizations)) [
              | inl c ↦ rw c s
              | inr c ↦ rw c s
            ]))
        (λ row w' s'. pure-Leads _ s') (λ e w' s'. s')

  org_or_new-Leads :
      (name slug : String) (r : Result (Err Sentinel) Organization) (w : World Data)
      → SameUsers us w
      → Leads Same Same (org_or_new svc name slug r) w
  org_or_new-Leads name slug (ok org) w s = pure-Leads _ s
  org_or_new-Leads name slug (err e) w s =
      if-Leads (errors_is is_same e org_not_found) (λ _. create_org-Leads name slug w s)
        (λ _. fail-Leads _ s)

  found_user-Leads :
      (r : Result (Err Sentinel) (Option UserRow)) (w : World Data)
      → SameUsers us w
      → Leads Same Same (found_user svc.repo r) w
  found_user-Leads (ok none) w s = pure-Leads _ s
  found_user-Leads (ok (some r)) w s = pure-Leads _ s
  found_user-Leads (err e) w s = pure-Leads _ s

  get_user-Leads :
      (email : String) (w : World Data)
      → SameUsers us w
      → Leads Same Same (get_user_by_email svc.repo email) w
  unfolding get_user_by_email
  get_user-Leads email w s =
      attempt-Leads {Bad' = Same} {Good' = Same} (found_user svc.repo)
        (call-Leads svc.repo.fault _ (λ f. s) s) (λ o w' s'. found_user-Leads (ok o) w' s')
        (λ e w' s'. found_user-Leads (err e) w' s')

  outside-Leads :
      {A : Type 0} (r : Result String A) (w : World Data)
      → SameUsers us w
      → Leads Same Same (outside svc r) w
  outside-Leads (ok a) w s = pure-Leads _ s
  outside-Leads (err e) w s = fail-Leads _ s

  -- A row that was added.
  abbrev IsAdded : SignupRequest → ℕ → String → String → UserRow → World Data → Type 0
  IsAdded req n org_id hash row w =
      (w.db.users ≡ row ∷ us)
      × (exists (user_clashes row.id row.email) us ≡ false)
      × (exists (org_id_is row.org_id) w.db.organizations ≡ true)
      × (row.email ≡ email_of svc req.email)
      × (row.role ≡ "superadmin")
      × (row.is_active ≡ true)

  add_user-Settled :
      (req : SignupRequest) (org_id hash : String) (org : ℕ) (w : World Data)
      → SameUsers us w
      → Settled (IsAdded req w.tick org_id hash) Same w (
          add_user svc.repo
            (user_row svc.repo (new_user svc req (email_of svc req.email) org_id hash) org w.tick)
            w.db)
  add_user-Settled req org_id hash org w s =
      elim (Bool-cases
        (exists (user_clashes (svc.repo.fresh w.tick) (email_of svc req.email)) w.db.users)) [
          | inl c ↦ rw c s
          | inr c ↦ rw c elim (Bool-cases (exists (org_id_is org) w.db.organizations)) [
            | inr o ↦ rw o s
            | inl o ↦ rw o (
              ap
                  (λ (rs : List UserRow).
                    user_row svc.repo (new_user svc req (email_of svc req.email) org_id hash) org
                      w.tick
                    ∷ rs)
                  s,
              ap (exists (user_clashes (svc.repo.fresh w.tick) (email_of svc req.email))) (sym s)
                  ∙ c,
              o,
              refl,
              refl,
              refl,
            )
          ]
        ]

  create_user-Leads :
      (req : SignupRequest) (org_id hash : String) (w : World Data)
      → SameUsers us w
      → Leads
          (IsSignedUp svc req us)
          Same
          (create_user svc.repo (new_user svc req (email_of svc req.email) org_id hash))
          w
  unfolding create_user
  create_user-Leads req org_id hash w s =
      let Good : UserRow → World Data → Type 0 = IsAdded req w.tick org_id hash in
      let Bad : Err Sentinel → World Data → Type 0 = λ e w'. SameUsers us w' in
      let u : User = new_user svc req (email_of svc req.email) org_id hash in
      bind-Leads {Bad' = Bad} {Good' = Good}
        (call-Leads svc.repo.fault _ (λ f. s)
          (cast-Settled Good Bad w (svc.repo.parse_uuid org_id)
            (λ org. add_user svc.repo (user_row svc.repo u org w.tick) w.db) s
            λ org p. add_user-Settled req org_id hash org w s))
        (λ row w' (users, fresh, org, email, role, active). pure-Leads _ (record {
          row = row;
          users = users;
          fresh = fresh;
          email = email;
          role = role;
          active = active;
          org = org;
          named = refl;
        }))
        (λ e w' s'. s')

  signup-Leads :
      (req : SignupRequest) (w : World Data)
      → SameUsers us w
      → Leads (IsSignedUp svc req us) Same (signup svc req) w
  unfolding signup
  signup-Leads req w s =
      bind-Leads {Bad' = Same} {Good' = Same} (kept _ _ w s)
        (λ _ w1 s1.
          bind-Leads {Bad' = Same} {Good' = Same} (kept _ _ w1 s1)
            (λ _ w2 s2.
              bind-Leads (get_user-Leads _ w2 s2)
                (λ existing w3 s3.
                  bind-Leads {Bad' = Same} {Good' = Same} (kept _ _ w3 s3)
                    (λ _ w4 s4.
                      attempt-Leads _ (get_org-Leads _ w4 s4) (λ org w5 s5. rest (ok org) w5 s5)
                        (λ e w5 s5. rest (err e) w5 s5))
                    (λ e v k. k))
                (λ e v k. k))
            (λ e v k. k))
        (λ e v k. k)
    where
      kept :
          (c : Bool) (e : Err Sentinel) (v : World Data)
          → SameUsers us v
          → Leads Same Same (fail_if c e) v
      kept c e v k =
          weaken {Bad = λ _ v'. SameUsers us v'} (fail_if-Leads c e (λ _. k))
            (λ _ v' h. ap (λ (x : World Data). x.db.users) h.1 ∙ k) (λ _ _ h. h)

      rest :
          (found : Result (Err Sentinel) Organization) (v : World Data)
          → SameUsers us v
          → Leads
              (IsSignedUp svc req us)
              Same
              (do
                org ← org_or_new svc (org_name_of svc req) (org_slug_of svc req) found
                n ← gets (tick_of svc)
                hash ← outside svc (svc.hash_password n req.password)
                create_user svc.repo (new_user svc req (email_of svc req.email) org.id hash))
              v
      rest found v k =
          bind-Leads (org_or_new-Leads _ _ found v k)
            (λ org v1 k1.
              bind-Leads {Bad' = Same} {Good' = Same} (gets-Leads _ k1)
                (λ n v2 k2.
                  bind-Leads (outside-Leads _ v2 k2)
                    (λ hash v3 k3. create_user-Leads req org.id hash v3 k3) (λ e u h. h))
                (λ e u h. h))
            (λ e u h. h)

-- A successful `Signup` has added exactly one user, active, under an address and an identifier
-- that no user had, to an organisation on record, and always as "superadmin", also when the
-- organisation was there before; after an error the users are as they were.
pub signup_lem :
    (svc : Service) (req : SignupRequest) (w : World Data)
    → Leads (IsSignedUp svc req w.db.users) (λ e w'. SameUsers w.db.users w') (signup svc req) w
signup_lem svc req w = signup-Leads svc w.db.users req w refl
