-- ===== src/Subscriber/Core/Documents.antt =====
-- The collection of the 5G core: one document for each IMSI, kept by every write.
use aerial_ran_platform.Base.{
  ℕ, String, false, ◌||◌, Option, List, [], ◌∷◌, ◌≡◌, refl, arith, eq_iff, str_eq, str_eq_refl,
  find, some, exists, delete_first, All,
}
use aerial_ran_platform.Go.Exec.{Leads}
use aerial_ran_platform.Go.Postgres.{Fault, World}
use aerial_ran_platform.Go.Postgres.Outcomes.{call-Leads}
use aerial_ran_platform.Subscriber.Model.{Subscriber, Document, Data}
use aerial_ran_platform.Subscriber.Core.{document, put_document, has_imsi, upsert, delete}

abbrev pub HasDistinctImsis : List Document → Type 0
HasDistinctImsis [] = Unit
HasDistinctImsis (d ∷ ds) = (exists (has_imsi d.imsi) ds ≡ false) × HasDistinctImsis ds

pub exists-put_document :
    (x : String) (d : Document) (ds : List Document)
    → exists (has_imsi x) (put_document d ds) ≡ (str_eq d.imsi x || exists (has_imsi x) ds)
exists-put_document x d [] = refl
exists-put_document x d (e ∷ ds) =
    ground
      (arith, eq_iff e.imsi d.imsi, eq_iff e.imsi x, eq_iff d.imsi x, exists-put_document x d ds)

pub put_document-HasDistinctImsis :
    (d : Document) (ds : List Document) → HasDistinctImsis ds → HasDistinctImsis (put_document d ds)
put_document-HasDistinctImsis d [] h = (refl, tt)
put_document-HasDistinctImsis d (e ∷ ds) h = ground (
  arith,
  eq_iff e.imsi d.imsi,
  eq_iff d.imsi e.imsi,
  exists-put_document e.imsi d ds,
  put_document-HasDistinctImsis d ds h.1,
)

pub put_document-All :
    (P : Document → Type 0) (d : Document) (ds : List Document)
    → P d
    → All P ds
    → All P (put_document d ds)
put_document-All P d [] p h = (p, tt)
put_document-All P d (e ∷ ds) p h = ground (arith, put_document-All P d ds p h.1)

pub delete_first-All :
    (P : Document → Type 0) (x : String) (ds : List Document)
    → All P ds
    → All P (delete_first (has_imsi x) ds)
delete_first-All P x [] h = tt
delete_first-All P x (e ∷ ds) h = ground (arith, delete_first-All P x ds h.1)

exists-delete_first :
    (x y : String) (ds : List Document)
    → exists (has_imsi y) ds ≡ false
    → exists (has_imsi y) (delete_first (has_imsi x) ds) ≡ false
exists-delete_first x y [] h = refl
exists-delete_first x y (e ∷ ds) h = ground (arith, exists-delete_first x y ds)

pub delete_first-HasDistinctImsis :
    (x : String) (ds : List Document)
    → HasDistinctImsis ds
    → HasDistinctImsis (delete_first (has_imsi x) ds)
delete_first-HasDistinctImsis x [] h = tt
delete_first-HasDistinctImsis x (e ∷ ds) h =
    ground (arith, exists-delete_first x e.imsi ds, delete_first-HasDistinctImsis x ds h.1)

-- Deleting the first document with an IMSI leaves none with it.
pub delete_first_removes :
    (x : String) (ds : List Document)
    → HasDistinctImsis ds
    → exists (has_imsi x) (delete_first (has_imsi x) ds) ≡ false
delete_first_removes x [] h = refl
delete_first_removes x (e ∷ ds) h = ground (arith, eq_iff e.imsi x, delete_first_removes x ds h.1)

-- What was put is found.
pub find-put_document :
    (d : Document) (ds : List Document) → find (has_imsi d.imsi) (put_document d ds) ≡ some d
find-put_document d [] = rw (str_eq_refl d.imsi)
find-put_document d (e ∷ ds) =
    ground (arith, eq_iff e.imsi d.imsi, str_eq_refl d.imsi, find-put_document d ds)

module _ (fault : ℕ → Option Fault) where
  pub upsert-Leads :
      (s : Subscriber) (w : World Data)
      → Leads
          (λ _ w'. w'.db ≡ record w.db { subscribers = put_document (document s) w.db.subscribers })
          (λ e w'. w'.db ≡ w.db)
          (upsert fault s)
          w
  unfolding upsert
  upsert-Leads s w = call-Leads fault _ (λ f. refl) refl

  pub delete-Leads :
      (imsi : String) (w : World Data)
      → Leads
          (λ _ w'.
            w'.db ≡ record w.db { subscribers = delete_first (has_imsi imsi) w.db.subscribers })
          (λ e w'. w'.db ≡ w.db)
          (delete fault imsi)
          w
  unfolding delete
  delete-Leads imsi w = call-Leads fault _ (λ f. refl) refl
