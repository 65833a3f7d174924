-- ===== src/Provision/Service/Cancellation.antt =====
-- Cancelling reaches the caller's own live subscription and nothing else.
use aerial_ran_platform.Base.{
  ℕ, String, Bool, true, false, ◌&&◌, some, List, [], ◌∷◌, ◌≡◌, refl, ap, ◌∙◌, ◌==◌, find, exists,
  update, Bool-cases, inl, inr, arith,
}
use mathlib.Core.Option.{some-injective}
use aerial_ran_platform.Go.Errors.{Err}
use aerial_ran_platform.Go.Exec.{ok, Leads}
use aerial_ran_platform.Go.Exec.Outcomes.{bind-Leads, pure-Leads, fail-Leads, if-Leads}
use aerial_ran_platform.Go.Postgres.{Postgres, World, cast, call}
use aerial_ran_platform.Go.Postgres.Outcomes.{call-Leads, cast-Settled}
use aerial_ran_platform.Provision.Model.{Sentinel, SubscriptionRow, Data}
use aerial_ran_platform.Provision.Service.{Answer, cancellable, cancelled, set_cancelled, cancel}

abbrev pub sub_id_is : ℕ → SubscriptionRow → Bool
sub_id_is u r = r.id == u

-- The subscription of `id` was the organisation's and live; no row of `id` of the organisation is
-- live now; every row of another organisation or identifier is as it was.
pub record IsCancelled (server : Postgres) (org_id id : String) (t t' : Data) : Type 0 where
  pub key : ℕ
  pub org : ℕ
  pub key_is : server.parse_uuid id ≡ some key
  pub org_is : server.parse_uuid org_id ≡ some org
  pub was_live : exists (cancellable key org) t.subscriptions ≡ true
  pub none_left : exists (cancellable key org) t'.subscriptions ≡ false
  pub others :
      (k : ℕ) (r : SubscriptionRow)
      → find (sub_id_is k) t.subscriptions ≡ some r
      → (r.org_id == org) && (k == key) ≡ false
      → find (sub_id_is k) t'.subscriptions ≡ some r
  pub plans : t'.plans ≡ t.plans

none_left_lem :
    (u org now : ℕ) (rs : List SubscriptionRow)
    → exists (cancellable u org) (update (cancellable u org) (cancelled now) rs) ≡ false
none_left_lem u org now [] = refl
none_left_lem u org now (r ∷ rs) =
    let rest : exists (cancellable u org) (update (cancellable u org) (cancelled now) rs) ≡ false =
      none_left_lem u org now rs in
    elim (Bool-cases (cancellable u org r)) [
      | inl e ↦ rw e (ground arith)
      | inr e ↦ rw e (ground arith)
    ]

others_lem :
    (u org now k : ℕ) (r : SubscriptionRow) (rs : List SubscriptionRow)
    → find (sub_id_is k) rs ≡ some r
    → (r.org_id == org) && (k == u) ≡ false
    → find (sub_id_is k) (update (cancellable u org) (cancelled now) rs) ≡ some r
others_lem u org now k r [] f o = cc
others_lem u org now k r (x ∷ rs) f o = elim (Bool-cases (sub_id_is k x)) [
  | inl e ↦
      let is_r : some x ≡ some r = ground arith in
      let apart : (x.org_id == org) && (k == u) ≡ false =
        ap (λ (y : SubscriptionRow). (y.org_id == org) && (k == u)) (some-injective _ _ is_r) ∙ o in
      let kept : cancellable u org x ≡ false = ground arith in rw (kept, e) is_r
  | inr e ↦
      let found : find (sub_id_is k) rs ≡ some r = ground arith in
      let rest : find (sub_id_is k) (update (cancellable u org) (cancelled now) rs) ≡ some r =
        others_lem u org now k r rs found o in
      elim (Bool-cases (cancellable u org x)) [
        | inl c ↦ rw c (ground arith)
        | inr c ↦ rw c (ground arith)
      ]
]

update_none :
    (u org now : ℕ) (rs : List SubscriptionRow)
    → exists (cancellable u org) rs ≡ false
    → update (cancellable u org) (cancelled now) rs ≡ rs
update_none u org now [] h = refl
update_none u org now (r ∷ rs) h =
    let rest : update (cancellable u org) (cancelled now) rs ≡ rs =
      update_none u org now rs (ground arith) in
    let out : cancellable u org r ≡ false = ground arith in
    rw out (ap (λ (xs : List SubscriptionRow). r ∷ xs) rest)

module _ (server : Postgres) (org_id id : String) where
  -- What the statement did, before its count of rows is looked at.
  abbrev Updated : Data → Bool → World Data → Type 0
  Updated t affected w =
      (u : ℕ) × (org : ℕ) × (now : ℕ) × (server.parse_uuid id ≡ some u)
      × (server.parse_uuid org_id ≡ some org)
      × (exists (cancellable u org) t.subscriptions ≡ affected)
      × (w.db
          ≡ record t { subscriptions = update (cancellable u org) (cancelled now) t.subscriptions })

  set_cancelled-Leads :
      (w : World Data)
      → Leads
          (Updated w.db)
          (λ e w'. w'.db ≡ w.db)
          (call server.fault (set_cancelled server org_id id))
          w
  set_cancelled-Leads w =
      let run : ℕ → ℕ → Answer Bool = λ u org. ok (
        exists (cancellable u org) w.db.subscriptions,
        record w.db {
          subscriptions =
              update (cancellable u org) (cancelled (server.now w.tick)) w.db.subscriptions;
        },
      ) in
      let Bad : Err Sentinel → World Data → Type 0 = λ e w'. w'.db ≡ w.db in
      call-Leads server.fault _ (λ f. refl)
        (cast-Settled (Updated w.db) Bad w (server.parse_uuid id)
          (λ u. cast (server.parse_uuid org_id) (run u)) refl
          λ u p.
            cast-Settled (Updated w.db) Bad w (server.parse_uuid org_id) (run u) refl
              λ org q. (u, org, server.now w.tick, p, q, refl, refl))

  -- A successful `Cancel` has ended the caller's own live subscription of that identifier and
  -- changed no other row, and so none of another organisation; after an error, `ErrSubNotFound`
  -- included, the data are as they were.
  pub cancel_lem :
      (w : World Data)
      → Leads
          (λ _ w'. IsCancelled server org_id id w.db w'.db)
          (λ e w'. w'.db ≡ w.db)
          (cancel server org_id id)
          w
  unfolding cancel
  cancel_lem w =
      bind-Leads (set_cancelled-Leads w)
        (λ affected w' (u, org, now, p, q, hit, after_it).
          if-Leads affected
            (λ e. pure-Leads _ (record {
              key = u;
              org = org;
              key_is = p;
              org_is = q;
              was_live = hit ∙ e;
              none_left =
                  ap (λ (d : Data). exists (cancellable u org) d.subscriptions) after_it
                  ∙ none_left_lem u org now w.db.subscriptions;
              others = λ k r f apart.
                  ap (λ (d : Data). find (sub_id_is k) d.subscriptions) after_it
                  ∙ others_lem u org now k r w.db.subscriptions f apart;
              plans = ap (λ (d : Data). d.plans) after_it;
            }))
            (λ e. fail-Leads _ (
              after_it
              ∙ ap (λ (rs : List SubscriptionRow). record w.db { subscriptions = rs })
                  (update_none u org now w.db.subscriptions (hit ∙ e)))))
        (λ e w' same. same)
