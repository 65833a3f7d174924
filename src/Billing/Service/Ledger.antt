-- ===== src/Billing/Service/Ledger.antt =====
-- The rollups are the sums of the events.
use aerial_ran_platform.Base.{
  ℕ, Bool, true, false, ◌&&◌, Option, none, some, List, [], ◌∷◌, ◌≡◌, refl, sym, ap, ◌∙◌, ◌==◌,
  find, update, map, All, if◌then◌else◌, Bool-cases, inl, inr, arith,
}
use mathlib.Core.Option.{some-injective}
use aerial_ran_platform.Base.Int.{ℤ, pos, negsuc, ◌+ℤ◌}
use aerial_ran_platform.Billing.Model.{Moment, Amounts, nothing, plus, EventRow, RollupRow, Data}
use aerial_ran_platform.Billing.Service.{has_key, raised}

-- Events of no user are counted under the zero UUID.
abbrev pub billed_user : Option ℕ → ℕ
billed_user none = 0
billed_user (some u) = u

abbrev pub same_key : ℕ → ℕ → ℕ → ℕ → ℕ → ℕ → Bool
same_key org user month o u m = org == o && user == u && month == m

-- An event on record with the offset of the time that it was sent with, which its row does not
-- keep.
pub record Sent : Type 0 where
  pub row : EventRow
  pub offset : ℤ

abbrev pub moment : Sent → Moment
moment e = record { instant = e.row.occurred_at; offset = e.offset }

abbrev pub row_of : Sent → EventRow
row_of e = e.row

module _ (month_of : Moment → ℕ) (o u m : ℕ) where
  abbrev pub counts : Sent → Bool
  counts e = same_key e.row.org_id (billed_user e.row.user_id) (month_of (moment e)) o u m

  -- What the events of an organisation, a user and a month come to.
  abbrev pub total_events : List Sent → Amounts
  total_events [] = nothing
  total_events (e ∷ es) =
      let rest = total_events es in if counts e then plus rest e.row.amounts else rest

abbrev pub total_rollup : Option RollupRow → Amounts
total_rollup none = nothing
total_rollup (some r) = r.amounts

-- Every rollup is the sum of its events, and where there is no rollup there is nothing to sum.
abbrev pub Balanced : (Moment → ℕ) → List Sent → List RollupRow → Type 0
Balanced month_of sent rollups =
    (o u m : ℕ) → total_rollup (find (has_key o u m) rollups) ≡ total_events month_of o u m sent

-- The events on record, each with an offset that makes it one of the times of `P`, balance the
-- rollups.
abbrev pub IsLedger : (Moment → Type 0) → (Moment → ℕ) → Data → Type 0
IsLedger P month_of t =
    (sent : List Sent) × (map row_of sent ≡ t.events)
    × Balanced month_of sent t.rollups
    × All (λ e. P (moment e)) sent

zero_add : (z : ℤ) → pos 0 +ℤ z ≡ z
zero_add (pos n) = ground arith
zero_add (negsuc n) = ground arith

nothing-plus : (a : Amounts) → plus nothing a ≡ a
nothing-plus a =
    rw (zero_add a.data_mb, zero_add a.minutes, zero_add a.sms_count, zero_add a.cents) refl

key_eq :
    (org user month o u m : ℕ)
    → same_key org user month o u m ≡ true
    → (org ≡ o) × (user ≡ u) × (month ≡ m)
key_eq org user month o u m h = (ground arith, ground arith, ground arith)

find-raised :
    (o u m now : ℕ) (a : Amounts) (r : RollupRow) (rs : List RollupRow)
    → find (has_key o u m) rs ≡ some r
    → find (has_key o u m) (update (has_key o u m) (raised a now) rs) ≡ some (raised a now r)
find-raised o u m now a r [] h = cc
find-raised o u m now a r (x ∷ rs) h = elim (Bool-cases (has_key o u m x)) [
  | inl e ↦
      let is_r : some x ≡ some r = ground arith in
      rw (e, e) (ap (λ (y : RollupRow). some (raised a now y)) (some-injective _ _ is_r))
  | inr e ↦
      let rest : find (has_key o u m) rs ≡ some r = ground arith in
      rw (e, e) (find-raised o u m now a r rs rest)
]

find-raised_other :
    (org user month o u m now : ℕ) (a : Amounts) (rs : List RollupRow)
    → same_key org user month o u m ≡ false
    → find (has_key o u m) (update (has_key org user month) (raised a now) rs)
      ≡ find (has_key o u m) rs
find-raised_other org user month o u m now a [] h = refl
find-raised_other org user month o u m now a (x ∷ rs) h =
    let rest : find (has_key o u m) (update (has_key org user month) (raised a now) rs)
        ≡ find (has_key o u m) rs =
      find-raised_other org user month o u m now a rs h in
    elim (Bool-cases (has_key org user month x)) [
      | inl e ↦ rw e (ground arith)
      | inr e ↦ rw e (ground arith)
    ]

module _ (month_of : Moment → ℕ) (sent : List Sent) (rollups : List RollupRow) (e : Sent)
    (ledger : Balanced month_of sent rollups) where
  abbrev org : ℕ
  org = e.row.org_id

  abbrev user : ℕ
  user = billed_user e.row.user_id

  abbrev month : ℕ
  month = month_of (moment e)

  -- What is known of the rollup at one key is known at an equal one.
  at_key :
      (o u m : ℕ) (x : Option RollupRow)
      → same_key org user month o u m ≡ true
      → find (has_key org user month) rollups ≡ x
      → find (has_key o u m) rollups ≡ x
  at_key o u m x h f =
      let (eo, eu, em) = key_eq org user month o u m h in rw (sym eo, sym eu, sym em) f

  -- A first event of a key.
  pub first-Balanced :
      (now : ℕ)
      → find (has_key org user month) rollups ≡ none
      → Balanced month_of (e ∷ sent) (
          (record {
            org_id = org;
            user_id = user;
            month = month;
            amounts = e.row.amounts;
            updated_at = now;
          })
          ∷ rollups)
  first-Balanced now absent o u m = elim (Bool-cases (same_key org user month o u m)) [
    | inl h ↦
        let empty : total_events month_of o u m sent ≡ nothing =
          sym (ledger o u m) ∙ ap total_rollup (at_key o u m none h absent) in
        rw (h, empty) (sym (nothing-plus e.row.amounts))
    | inr h ↦ rw h (ledger o u m)
  ]

  -- A further event of a key.
  pub raised-Balanced :
      (now : ℕ) (r : RollupRow)
      → find (has_key org user month) rollups ≡ some r
      → Balanced month_of
          (e ∷ sent)
          (update (has_key org user month) (raised e.row.amounts now) rollups)
  raised-Balanced now r present o u m = elim (Bool-cases (same_key org user month o u m)) [
    | inl h ↦
        let (eo, eu, em) = key_eq org user month o u m h in
        let sum : r.amounts ≡ total_events month_of o u m sent =
          sym (ap total_rollup (at_key o u m (some r) h present)) ∙ ledger o u m in
        let after_it : find (has_key o u m)
              (update (has_key org user month) (raised e.row.amounts now) rollups)
            ≡ some (raised e.row.amounts now r) =
          rw (sym eo, sym eu, sym em)
            (find-raised org user month now e.row.amounts r rollups present) in
        rw h (ap total_rollup after_it ∙ ap (λ (x : Amounts). plus x e.row.amounts) sum)
    | inr h ↦ rw h (
        ap total_rollup (find-raised_other org user month o u m now e.row.amounts rollups h)
        ∙ ledger o u m)
  ]
