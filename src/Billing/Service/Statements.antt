-- ===== src/Billing/Service/Statements.antt =====
-- The two statements of the transaction that ingests an event.
use aerial_ran_platform.Base.{
  All, ℕ, Option, none, some, List, ◌∷◌, map, ap, ◌≡◌, refl, sym, ◌∙◌, str_eq, find, Bool-cases,
  inl, inr,
}
use mathlib.Core.Option.{some-injective}
use aerial_ran_platform.Go.Errors.{Err}
use aerial_ran_platform.Go.Exec.{Result, ok, err, Outcome, Leads}
use aerial_ran_platform.Go.Exec.Outcomes.{bind-Leads}
use aerial_ran_platform.Go.Postgres.{Fault, World, call, cast, cast_null}
use aerial_ran_platform.Go.Postgres.Keeps.{KeepsData}
use aerial_ran_platform.Go.Postgres.Outcomes.{Settled, after, call-Leads, cast-Settled}
use aerial_ran_platform.Billing.Model.{
  Sentinel, plus, fit, Moment, UsageEvent, EventRow, RollupRow, Data,
}
use aerial_ran_platform.Billing.Service.{
  Service, Answer, Op, ptr, zero_uuid, rollup_user, has_key, event_row, insert_event, put_rollup,
  add_rollup, committed, finish, in_transaction, statements,
}
use aerial_ran_platform.Billing.Service.Ledger.{
  Sent, moment, row_of, billed_user, Balanced, IsLedger, first-Balanced, raised-Balanced,
}

module _ (svc : Service) (P : Moment → Type 0) where
  abbrev pub Sound : Data → Type 0
  Sound t = IsLedger P svc.month_of t

  committed-keeps :
      {A : Type 0} (t : Data) (o : Option Fault) (a : A) (w : World Data)
      → Sound t
      → Sound w.db
      → Sound (committed svc t o a w).1.db
  committed-keeps t none a w s h = h
  committed-keeps t (some f) a w s h = s

  finish-keeps :
      {A : Type 0} (t : Data) (x : Result (Err Sentinel) A × World Data)
      → Sound t
      → Outcome (λ _ w'. Sound w'.db) (λ _ _. Unit {0}) x
      → Sound (finish svc t x).1.db
  finish-keeps t (ok a, w) s h = committed-keeps t (svc.repo.fault w.tick) a w s h
  finish-keeps t (err e, w) s h = s

  -- A transaction keeps what its statements, when they all succeed, keep.
  pub in_transaction-Keeps :
      {A : Type 0} (m : Op A)
      → ((w : World Data) → Sound w.db → Leads (λ _ w'. Sound w'.db) (λ _ _. Unit {0}) m w)
      → KeepsData Sound (in_transaction svc m)
  in_transaction-Keeps m h = record { at = λ w s. finish-keeps w.db (m w) s (h w s).at }

  -- The event is written and its rollup is not.
  record IsPending (e : UsageEvent) (at : Moment) (w : World Data) : Type 0 where
    event : Sent
    earlier : List Sent
    events : map row_of (event ∷ earlier) ≡ w.db.events
    ledger : Balanced svc.month_of earlier w.db.rollups
    times : All (λ (x : Sent). P (moment x)) (event ∷ earlier)
    amounts : event.row.amounts ≡ e.amounts
    month : moment event ≡ at
    org : svc.repo.parse_uuid e.org_id ≡ some event.row.org_id
    user : svc.repo.parse_uuid (rollup_user (ptr e.user_id)) ≡ some (billed_user event.row.user_id)

  abbrev Any : Err Sentinel → World Data → Type 0
  Any e w = Unit

  abbrev Pending : UsageEvent → Moment → Unit {0} → World Data → Type 0
  Pending e at u w = IsPending e at w

  module _ (zero_reads : svc.repo.parse_uuid zero_uuid ≡ some 0) (e : UsageEvent) (at : Moment)
      (timely : P at) where
    pending :
        (w : World Data) (org : ℕ) (user : Option ℕ)
        → Sound w.db
        → svc.repo.parse_uuid e.org_id ≡ some org
        → svc.repo.parse_uuid (rollup_user (ptr e.user_id)) ≡ some (billed_user user)
        → IsPending e at
            (after w (record w.db { events = event_row svc e org user at w.tick ∷ w.db.events }))
    pending w org user s p q = record {
      event = record { row = event_row svc e org user at w.tick; offset = at.offset };
      earlier = s.0;
      events = ap (λ (es : List EventRow). event_row svc e org user at w.tick ∷ es) s.1;
      ledger = s.2;
      times = (timely, s.3);
      amounts = refl;
      month = refl;
      org = p;
      user = q;
    }

    insert_user-Settled :
        (w : World Data) (org : ℕ)
        → Sound w.db
        → svc.repo.parse_uuid e.org_id ≡ some org
        → Settled (Pending e at) Any w (
            cast_null svc.repo (ptr e.user_id) λ user.
              ok (tt, record w.db { events = event_row svc e org user at w.tick ∷ w.db.events }))
    insert_user-Settled w org s p = elim (Bool-cases (str_eq (ptr e.user_id) "")) [
      | inl c ↦ rw c (pending w org none s p (rw c zero_reads))
      | inr c ↦ rw c (
          cast-Settled (Pending e at) Any w (svc.repo.parse_uuid (ptr e.user_id)) _ tt
            λ user q. pending w org (some user) s p (rw c q))
    ]

    insert_event-Leads :
        (w : World Data)
        → Sound w.db
        → Leads (Pending e at) Any (call svc.repo.fault (insert_event svc e at)) w
    insert_event-Leads w s =
        call-Leads svc.repo.fault _ (λ f. tt)
          (elim (Bool-cases (fit e.amounts)) [
            | inl c ↦ rw c (
                cast-Settled (Pending e at) Any w (svc.repo.parse_uuid e.org_id)
                  (λ org. cast_null svc.repo (ptr e.user_id) λ user.
                    ok (
                      tt,
                      record w.db { events = event_row svc e org user at w.tick ∷ w.db.events },
                    ))
                  tt λ org p. insert_user-Settled w org s p)
            | inr c ↦ rw c tt
          ])

    abbrev Done : Unit {0} → World Data → Type 0
    Done u w = Sound w.db

    put_rollup-Settled :
        (w : World Data) (k : IsPending e at w)
        → (x : Option RollupRow)
        → find
            (has_key k.event.row.org_id
              (billed_user k.event.row.user_id)
              (svc.month_of (moment k.event)))
            w.db.rollups
          ≡ x
        → Settled Done Any w (
            put_rollup svc k.event.row.org_id
              (billed_user k.event.row.user_id)
              (svc.month_of (moment k.event))
              k.event.row.amounts
              w.tick
              w.db
              x)
    put_rollup-Settled w k none f = (
      k.event ∷ k.earlier,
      k.events,
      first-Balanced svc.month_of k.earlier w.db.rollups k.event k.ledger (svc.repo.now w.tick) f,
      k.times,
    )
    put_rollup-Settled w k (some r) f =
        elim (Bool-cases (fit (plus r.amounts k.event.row.amounts))) [
          | inl c ↦ rw c (
            k.event ∷ k.earlier,
            k.events,
            raised-Balanced svc.month_of k.earlier w.db.rollups k.event k.ledger
                (svc.repo.now w.tick) r f,
            k.times,
          )
          | inr c ↦ rw c tt
        ]

    -- The keys of the rollup are those of the event that was written.
    keyed :
        (w : World Data) (k : IsPending e at w) (org user : ℕ)
        → svc.repo.parse_uuid e.org_id ≡ some org
        → svc.repo.parse_uuid (rollup_user (ptr e.user_id)) ≡ some user
        → Settled Done Any w (
            put_rollup svc org user
              (svc.month_of at)
              e.amounts
              w.tick
              w.db
              (find (has_key org user (svc.month_of at)) w.db.rollups))
    keyed w k org user p q =
        rw
          (
            some-injective _ _ (sym p ∙ k.org),
            some-injective _ _ (sym q ∙ k.user),
            sym k.month,
            sym k.amounts,
          )
          (put_rollup-Settled w k _ refl)

    add_rollup-Leads :
        (w : World Data)
        → IsPending e at w
        → Leads Done Any (call svc.repo.fault (add_rollup svc e (svc.month_of at))) w
    add_rollup-Leads w k =
        call-Leads svc.repo.fault _ (λ f. tt)
          (elim (Bool-cases (fit e.amounts)) [
            | inl c ↦ rw c (
                let put : ℕ → ℕ → Answer (Unit {0}) = λ org user.
                  put_rollup svc org user (svc.month_of at) e.amounts w.tick w.db
                    (find (has_key org user (svc.month_of at)) w.db.rollups) in
                cast-Settled Done Any w (svc.repo.parse_uuid e.org_id)
                  (λ org. cast (svc.repo.parse_uuid (rollup_user (ptr e.user_id))) (put org)) tt
                  λ org p.
                    cast-Settled Done Any w (svc.repo.parse_uuid (rollup_user (ptr e.user_id)))
                      (put org) tt λ user q. keyed w k org user p q)
            | inr c ↦ rw c tt
          ])

    pub statements-Leads : (w : World Data) → Sound w.db → Leads Done Any (statements svc e at) w
    statements-Leads w s =
        bind-Leads (insert_event-Leads w s) (λ _ w' k. add_rollup-Leads w' k) (λ e w' h. tt)
