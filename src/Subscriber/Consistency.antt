-- ===== src/Subscriber/Consistency.antt =====
-- What the table of SIMs and the 5G core's collection have in common, and what of it the changes
-- of a row keep.
use aerial_ran_platform.Base.{
  ℕ, String, Bool, true, false, List, [], ◌∷◌, ◌≡◌, refl, arith, eq_iff, str_eq, exists, update,
  find, All, ◌≢◌, ◌∙◌, some,
}
use aerial_ran_platform.Subscriber.Model.{SimRow, Document, Data}
use aerial_ran_platform.Subscriber.Repository.{has_id, clashes}
use aerial_ran_platform.Subscriber.Core.Documents.{HasDistinctImsis}

abbrev pub has_row_imsi : String → SimRow → Bool
has_row_imsi imsi r = str_eq r.imsi imsi

-- No two rows share an identifier or an IMSI.
abbrev pub HasDistinctRows : List SimRow → Type 0
HasDistinctRows [] = Unit
HasDistinctRows (r ∷ rs) = (exists (clashes r.id r.imsi) rs ≡ false) × HasDistinctRows rs

-- A document of the core is that of a SIM on record.
abbrev pub IsOnRecord : List SimRow → Document → Type 0
IsOnRecord sims d = exists (has_row_imsi d.imsi) sims ≡ true

pub record IsConsistent (t : Data) : Type 0 where
  pub rows : HasDistinctRows t.sims
  pub documents : HasDistinctImsis t.subscribers
  pub known : All (IsOnRecord t.sims) t.subscribers

-- A change that keeps what a test reads keeps whether a row passes it.
pub exists-update :
    (p q : SimRow → Bool) (f : SimRow → SimRow) (rs : List SimRow)
    → ((r : SimRow) → p (f r) ≡ p r)
    → exists p (update q f rs) ≡ exists p rs
exists-update p q f [] same = refl
exists-update p q f (r ∷ rs) same = ground (arith, same r, exists-update p q f rs same)

exists_clashes-update :
    (r : SimRow) (q : SimRow → Bool) (f : SimRow → SimRow) (rs : List SimRow)
    → ((x : SimRow) → ((f x).id ≡ x.id) × ((f x).imsi ≡ x.imsi))
    → exists (clashes r.id r.imsi) (update q f rs) ≡ exists (clashes r.id r.imsi) rs
exists_clashes-update r q f rs same =
    exists-update (clashes r.id r.imsi) q f rs (λ x. rw ((same x).0, (same x).1))

pub update-HasDistinctRows :
    (q : SimRow → Bool) (f : SimRow → SimRow) (rs : List SimRow)
    → ((r : SimRow) → ((f r).id ≡ r.id) × ((f r).imsi ≡ r.imsi))
    → HasDistinctRows rs
    → HasDistinctRows (update q f rs)
update-HasDistinctRows q f [] same h = tt
update-HasDistinctRows q f (r ∷ rs) same (d, h) = (
  ground (arith, same r, exists_clashes-update r q f rs same),
  update-HasDistinctRows q f rs same h,
)

pub All-update :
    (ds : List Document) (q : SimRow → Bool) (f : SimRow → SimRow) (rs : List SimRow)
    → ((r : SimRow) → (f r).imsi ≡ r.imsi)
    → All (IsOnRecord rs) ds
    → All (IsOnRecord (update q f rs)) ds
All-update [] q f rs same h = tt
All-update (d ∷ ds) q f rs same (k, h) =
    (exists-update (has_row_imsi d.imsi) q f rs (λ r. rw same) ∙ k, All-update ds q f rs same h)

pub All-add :
    (r : SimRow) (rs : List SimRow) (ds : List Document)
    → All (IsOnRecord rs) ds
    → All (IsOnRecord (r ∷ rs)) ds
All-add r rs [] h = tt
All-add r rs (d ∷ ds) (k, h) = (ground arith, All-add r rs ds h)

-- A row that is found by its identifier is on record.
pub find-IsOnRecord :
    (u : ℕ) (rs : List SimRow) {r : SimRow}
    → find (has_id u) rs ≡ some r
    → exists (has_row_imsi r.imsi) rs ≡ true
find-IsOnRecord u [] h = cc
find-IsOnRecord u (x ∷ rs) {r} h =
    ground (arith, eq_iff x.imsi r.imsi, find-IsOnRecord u rs {r = r})

-- A change of one row leaves the others as they are.
pub find-update_ne :
    (u k : ℕ) (f : SimRow → SimRow) (rs : List SimRow)
    → ((r : SimRow) → (f r).id ≡ r.id)
    → u ≢ k
    → find (has_id k) (update (has_id u) f rs) ≡ find (has_id k) rs
find-update_ne u k f [] same ne = refl
find-update_ne u k f (r ∷ rs) same ne = ground (arith, same r, find-update_ne u k f rs same ne)

pub find-update_self :
    (u : ℕ) (f : SimRow → SimRow) (rs : List SimRow) {r : SimRow}
    → ((x : SimRow) → (f x).id ≡ x.id)
    → find (has_id u) rs ≡ some r
    → find (has_id u) (update (has_id u) f rs) ≡ some (f r)
find-update_self u f [] same h = cc
find-update_self u f (x ∷ rs) {r} same h =
    ground (arith, same x, find-update_self u f rs {r = r} same)
