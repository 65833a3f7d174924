-- ===== src/Provision/Service/Subscriptions.antt =====
-- One live subscription for a user and a plan, and whose subscriptions can be cancelled.
use aerial_ran_platform.Base.{
  ℕ, String, Bool, false, not, Option, none, some, List, [], ◌∷◌, ◌≡◌, refl, exists, update,
  Bool-cases, inl, inr, arith,
}
use aerial_ran_platform.Go.Errors.{Err}
use aerial_ran_platform.Go.Exec.{Result, ok, err}
use aerial_ran_platform.Go.Exec.Keeps.{pure-Keeps, fail-Keeps, bind-Keeps, attempt-Keeps, if-Keeps}
use aerial_ran_platform.Go.Postgres.{Postgres, World, cast_null}
use aerial_ran_platform.Go.Postgres.Keeps.{
  Stays, KeepsData, call-Keeps, cast-Stays, cast_null-Stays,
}
use aerial_ran_platform.Provision.Model.{Sentinel, SubscriptionRow, PlanRow, CreateSubRequest, Data}
use aerial_ran_platform.Provision.Service.{
  Answer, ptr, clashes, cancellable, cancelled, plan_id_is, plan_found, get_plan, new_row,
  add_subscription, subscribed, create_subscription, cancel, list_plans, list_by_org,
}

-- No two rows share an identifier, no two live rows a user and a plan.
abbrev pub HasOneLive : List SubscriptionRow → Type 0
HasOneLive [] = Unit
HasOneLive (r ∷ rs) = (exists (clashes r) rs ≡ false) × HasOneLive rs

-- Cancelling takes rows out of the index and never into it.
clashes-update :
    (new : SubscriptionRow) (q : SubscriptionRow → Bool) (now : ℕ) (rs : List SubscriptionRow)
    → exists (clashes new) rs ≡ false
    → exists (clashes new) (update q (cancelled now) rs) ≡ false
clashes-update new q now [] h = refl
clashes-update new q now (r ∷ rs) h =
    let rest : exists (clashes new) (update q (cancelled now) rs) ≡ false =
      clashes-update new q now rs (ground arith) in
    elim (Bool-cases (q r)) [ inl e ↦ rw e (ground arith) | inr e ↦ rw e (ground arith) ]

clashes-cancelled :
    (r : SubscriptionRow) (now : ℕ) (rs : List SubscriptionRow)
    → exists (clashes r) rs ≡ false
    → exists (clashes (cancelled now r)) rs ≡ false
clashes-cancelled r now [] h = refl
clashes-cancelled r now (x ∷ rs) h = ground (arith, clashes-cancelled r now rs)

update-HasOneLive :
    (q : SubscriptionRow → Bool) (now : ℕ) (rs : List SubscriptionRow)
    → HasOneLive rs
    → HasOneLive (update q (cancelled now) rs)
update-HasOneLive q now [] h = tt
update-HasOneLive q now (r ∷ rs) (d, h) = elim (Bool-cases (q r)) [
  | inl e ↦
      (rw e (clashes-cancelled r now _ (clashes-update r q now rs d)), update-HasOneLive q now rs h)
  | inr e ↦ (rw e (clashes-update r q now rs d), update-HasOneLive q now rs h)
]

abbrev pub Sound : Data → Type 0
Sound t = HasOneLive t.subscriptions

-- What a client may ask for.
pub data Request : Type 0 where
  subscribing : String → CreateSubRequest → Request
  cancelling : String → String → Request
  listing getting : String → Request
  listing_plans : Request

module _ (server : Postgres) where
  add-Stays :
      (row : SubscriptionRow) (t : Data) → Sound t → Stays Sound (add_subscription server row t)
  add-Stays row t s = elim (Bool-cases (exists (clashes row) t.subscriptions)) [
    | inl c ↦ rw c tt
    | inr c ↦ rw c elim (Bool-cases (not (exists (plan_id_is row.plan_id) t.plans))) [
      | inl e ↦ rw e tt
      | inr e ↦ rw e (c, s)
    ]
  ]

  plan_found-Keeps : (o : Option PlanRow) → KeepsData Sound (plan_found server o)
  plan_found-Keeps none = fail-Keeps _
  plan_found-Keeps (some r) = pure-Keeps _

  get_plan-Keeps : (id : String) → KeepsData Sound (get_plan server id)
  unfolding get_plan
  get_plan-Keeps id = bind-Keeps _ _ (call-Keeps Sound server.fault _ λ n t s. s) plan_found-Keeps

  subscribed-Keeps :
      (org_id : String) (req : CreateSubRequest) (r : Result (Err Sentinel) SubscriptionRow)
      → KeepsData Sound (subscribed server org_id req r)
  subscribed-Keeps org_id req (ok r) = pure-Keeps _
  subscribed-Keeps org_id req (err e) = fail-Keeps _

  create-Keeps :
      (org_id : String) (req : CreateSubRequest)
      → KeepsData Sound (create_subscription server org_id req)
  unfolding create_subscription
  create-Keeps org_id req = bind-Keeps _ _ (get_plan-Keeps req.plan_id) λ plan.
      bind-Keeps _ _
        (attempt-Keeps _ (
          call-Keeps Sound server.fault _ λ n t s.
            cast-Stays Sound (server.parse_uuid org_id) _ λ org.
              cast-Stays Sound (server.parse_uuid req.user_id) _ λ user.
                let add : Option ℕ → Option ℕ → Answer SubscriptionRow = λ sim esim.
                  add_subscription server (new_row server req.plan_id org user sim esim n) t in
                cast_null-Stays Sound server (ptr req.sim_id)
                  (λ sim. cast_null server (ptr req.esim_id) (add sim))
                  λ sim.
                    cast_null-Stays Sound server (ptr req.esim_id) (add sim)
                      λ esim. add-Stays (new_row server req.plan_id org user sim esim n) t s))
        (subscribed-Keeps org_id req)

  cancel-Keeps : (org_id id : String) → KeepsData Sound (cancel server org_id id)
  unfolding cancel
  cancel-Keeps org_id id =
      bind-Keeps _ _
        (call-Keeps Sound server.fault _ λ n t s. cast-Stays Sound (server.parse_uuid id) _ λ u.
          cast-Stays Sound (server.parse_uuid org_id) _
            λ org. update-HasOneLive (cancellable u org) (server.now n) t.subscriptions s)
        λ affected. if-Keeps affected _ _ (pure-Keeps _) (fail-Keeps _)

  unfoldable pub serve : Request → World Data → World Data
  serve (subscribing org_id req) w = (create_subscription server org_id req w).1
  serve (cancelling org_id id) w = (cancel server org_id id w).1
  serve (listing org_id) w = (list_by_org server org_id w).1
  serve (getting id) w = (get_plan server id w).1
  serve listing_plans w = (list_plans server w).1

  unfoldable pub serve_all : List Request → World Data → World Data
  serve_all [] w = w
  serve_all (r ∷ rs) w = serve_all rs (serve r w)

  serve-Sound : (r : Request) (w : World Data) → Sound w.db → Sound (serve r w).db
  unfolding serve list_by_org list_plans
  serve-Sound (subscribing org_id req) w s = (create-Keeps org_id req).at w s
  serve-Sound (cancelling org_id id) w s = (cancel-Keeps org_id id).at w s
  serve-Sound (listing org_id) w s =
      (bind-Keeps {P = λ v. Sound v.db} _ _
          (call-Keeps Sound server.fault _
            λ n t s'. cast-Stays Sound (server.parse_uuid org_id) _ λ org. s')
          λ rows. pure-Keeps _).at
        w s
  serve-Sound (getting id) w s = (get_plan-Keeps id).at w s
  serve-Sound listing_plans w s =
      (bind-Keeps {P = λ v. Sound v.db} _ _ (call-Keeps Sound server.fault _ λ n t s'. s')
          λ rows. pure-Keeps _).at
        w s

  -- From data of which this holds, through any requests of any tenants, whatever of them fails: no
  -- user has two subscriptions to a plan that are not cancelled, and no two subscriptions share an
  -- identifier.
  pub serve_all-HasOneLive :
      (rs : List Request) (w : World Data)
      → HasOneLive w.db.subscriptions
      → HasOneLive (serve_all rs w).db.subscriptions
  unfolding serve_all
  serve_all-HasOneLive [] w s = s
  serve_all-HasOneLive (r ∷ rs) w s = serve_all-HasOneLive rs (serve r w) (serve-Sound r w s)
