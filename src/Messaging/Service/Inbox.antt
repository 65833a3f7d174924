-- ===== src/Messaging/Service/Inbox.antt =====
-- What an inbox returns: the newest messages of its user, in order, and no more than its limit.
use aerial_ran_platform.Base.{
  ℕ, zero, suc, ◌≤◌, String, true, false, some, List, [], ◌∷◌, ◌++◌, map, ◌≡◌, refl, arith, All,
  Bool-cases, inl, inr, length, take, select, insert_by, sort_by, ltb, ◌==◌,
}
use aerial_ran_platform.Base.Int.{ℤ, pos, negsuc}
use aerial_ran_platform.Go.Exec.{Leads}
use aerial_ran_platform.Go.Exec.Outcomes.{pure-Leads, bind-Leads}
use aerial_ran_platform.Go.Postgres.{World, call}
use aerial_ran_platform.Go.Postgres.Outcomes.{call-cast-Leads}
use aerial_ran_platform.Messaging.Model.{MessageRow, Data}
use aerial_ran_platform.Messaging.Service.{
  Service, is_to, newer, effective_limit, select_inbox, scan, inbox,
}

-- No row of the list is newer than the one before it.
abbrev pub NewestFirst : List MessageRow → Type 0
NewestFirst [] = Unit
NewestFirst (r ∷ rs) = All (λ s. s.created_at ≤ r.created_at) rs × NewestFirst rs

All-insert :
    (P : MessageRow → Type 0) (r : MessageRow) (rs : List MessageRow)
    → P r
    → All P rs
    → All P (insert_by newer r rs)
All-insert P r [] p h = (p, tt)
All-insert P r (s ∷ rs) p (q, h) = elim (Bool-cases (newer s r)) [
  | inl e ↦ rw e (q, All-insert P r rs p h)
  | inr e ↦ rw e (p, (q, h))
]

older_still :
    (m n : ℕ) (rs : List MessageRow)
    → m ≤ n
    → All (λ s. s.created_at ≤ m) rs
    → All (λ s. s.created_at ≤ n) rs
older_still m n [] h a = tt
older_still m n (r ∷ rs) h (b, a) = (omega arith, older_still m n rs h a)

insert-NewestFirst :
    (r : MessageRow) (rs : List MessageRow) → NewestFirst rs → NewestFirst (insert_by newer r rs)
insert-NewestFirst r [] h = (tt, tt)
insert-NewestFirst r (s ∷ rs) (older, h) = elim (Bool-cases (newer s r)) [
  | inl e ↦
      rw e (All-insert _ r rs (before s.created_at r.created_at e) older, insert-NewestFirst r rs h)
  | inr e ↦ rw e (
    (
      after s.created_at r.created_at e,
      older_still _ _ rs (after s.created_at r.created_at e) older,
    ),
    (older, h),
  )
]
  where
    before : (m n : ℕ) → ltb n m ≡ true → n ≤ m
    before m n e = ground arith

    after : (m n : ℕ) → ltb n m ≡ false → m ≤ n
    after m n e = ground arith

sort-NewestFirst : (rs : List MessageRow) → NewestFirst (sort_by newer rs)
sort-NewestFirst [] = tt
sort-NewestFirst (r ∷ rs) = insert-NewestFirst r (sort_by newer rs) (sort-NewestFirst rs)

sort-All : (P : MessageRow → Type 0) (rs : List MessageRow) → All P rs → All P (sort_by newer rs)
sort-All P [] h = tt
sort-All P (r ∷ rs) (p, h) = All-insert P r (sort_by newer rs) p (sort-All P rs h)

select-All : (u : ℕ) (rs : List MessageRow) → All (λ r. r.to_user_id ≡ u) (select (is_to u) rs)
select-All u [] = tt
select-All u (r ∷ rs) = elim (Bool-cases (r.to_user_id == u)) [
  | inl e ↦ rw e (ground arith, select-All u rs)
  | inr e ↦ rw e (select-All u rs)
]

-- The rows that a limit leaves out.
abbrev pub drop : ℕ → List MessageRow → List MessageRow
drop zero rs = rs
drop (suc n) [] = []
drop (suc n) (r ∷ rs) = drop n rs

take-All : (P : MessageRow → Type 0) (n : ℕ) (rs : List MessageRow) → All P rs → All P (take n rs)
take-All P zero rs h = tt
take-All P (suc n) [] h = tt
take-All P (suc n) (r ∷ rs) (p, h) = (p, take-All P n rs h)

drop-All : (P : MessageRow → Type 0) (n : ℕ) (rs : List MessageRow) → All P rs → All P (drop n rs)
drop-All P zero rs h = h
drop-All P (suc n) [] h = tt
drop-All P (suc n) (r ∷ rs) (p, h) = drop-All P n rs h

take-NewestFirst : (n : ℕ) (rs : List MessageRow) → NewestFirst rs → NewestFirst (take n rs)
take-NewestFirst zero rs h = tt
take-NewestFirst (suc n) [] h = tt
take-NewestFirst (suc n) (r ∷ rs) (older, h) = (take-All _ n rs older, take-NewestFirst n rs h)

-- Every row that is left out is at most as new as every row that is taken.
abbrev pub NoneNewer : List MessageRow → List MessageRow → Type 0
NoneNewer left taken = All (λ r. All (λ s. s.created_at ≤ r.created_at) left) taken

take-NoneNewer : (n : ℕ) (rs : List MessageRow) → NewestFirst rs → NoneNewer (drop n rs) (take n rs)
take-NoneNewer zero rs h = tt
take-NoneNewer (suc n) [] h = tt
take-NoneNewer (suc n) (r ∷ rs) (older, h) = (drop-All _ n rs older, take-NoneNewer n rs h)

take-append : (n : ℕ) (rs : List MessageRow) → take n rs ++ drop n rs ≡ rs
take-append zero rs = refl
take-append (suc n) [] = refl
take-append (suc n) (r ∷ rs) = λ i. r ∷ take-append n rs i

length-take : {A : Type 0} (n : ℕ) (rs : List A) → length (take n rs) ≤ n
length-take zero rs = omega arith
length-take (suc n) [] = omega arith
length-take (suc n) (r ∷ rs) = below (length (take n rs)) n (length-take n rs)
  where
    below : (m n : ℕ) → m ≤ n → suc m ≤ suc n
    below m n h = omega arith

module _ (svc : Service) (user : String) (limit : ℤ) where
  -- The rows that are shown and those that are left out are all the messages to the user; those
  -- that are shown come newest first, and none that is left out is newer.
  pub record Shows (rows : List MessageRow) (t : Data) : Type 0 where
    pub key : ℕ
    pub parsed : svc.pool.parse_uuid user ≡ some key
    pub left : List MessageRow
    pub all : rows ++ left ≡ sort_by newer (select (is_to key) t.messages)
    pub mine : All (λ r. r.to_user_id ≡ key) rows
    pub newest_first : NewestFirst rows
    pub none_newer : NoneNewer left rows
    pub bounded : length rows ≤ effective_limit limit

  select_inbox-Leads :
      (w : World Data)
      → Leads
          (λ rows w'. Shows rows w.db × (w'.db ≡ w.db))
          (λ e w'. w'.db ≡ w.db)
          (call svc.pool.fault (select_inbox svc user (effective_limit limit)))
          w
  select_inbox-Leads w =
      call-cast-Leads svc.pool.fault (svc.pool.parse_uuid user) _ (λ f. refl) refl
        (λ u e. (
          record {
            key = u;
            parsed = e;
            left = drop (effective_limit limit) (sort_by newer (select (is_to u) w.db.messages));
            all = take-append (effective_limit limit) _;
            mine = take-All _ (effective_limit limit) _ (sort-All _ _ (select-All u w.db.messages));
            newest_first =
                take-NewestFirst (effective_limit limit) _
                  (sort-NewestFirst (select (is_to u) w.db.messages));
            none_newer =
                take-NoneNewer (effective_limit limit) _
                  (sort-NewestFirst (select (is_to u) w.db.messages));
            bounded = length-take (effective_limit limit) _;
          },
          refl,
        ))

  -- An inbox that is read holds only messages to its user, newest first, at most as many as the
  -- limit that applies; none that it leaves out is newer than one that it shows, and with them it
  -- is all of the user's messages. Reading changes nothing.
  pub inbox_outcome :
      (w : World Data)
      → Leads
          (λ ms w'.
            (rows : List MessageRow) × (ms ≡ map (scan svc) rows)
            × Shows rows w.db
            × (w'.db ≡ w.db))
          (λ e w'. w'.db ≡ w.db)
          (inbox svc user limit)
          w
  unfolding inbox
  inbox_outcome w =
      bind-Leads (select_inbox-Leads w) (λ rows w' (s, same). pure-Leads _ (rows, refl, s, same))
        (λ e w' same. same)

-- The limit that applies is from 1 to 200, whatever was asked for.
pub effective_limit_lem : (limit : ℤ) → (1 ≤ effective_limit limit) × (effective_limit limit ≤ 200)
effective_limit_lem (negsuc n) = (omega arith, omega arith)
effective_limit_lem (pos n) = (ground arith, ground arith)
