-- ===== src/Esim/Service/Ordering.antt =====
-- What an order leaves: the provider's eSIM on record, or nothing in the tables.
use Prim.Native.String
use aerial_ran_platform.Base.{
  ℕ, String, Option, some, ◌∷◌, ◌≡◌, refl, find, exists, sym, ap, ◌∙◌, false, true, none, ◌⊎◌, inl,
  inr, str_eq, Bool-cases, eq_iff, arith, zero, suc,
}
use aerial_ran_platform.Base.Int.{ℤ, pos, negsuc, is_zero}
use mathlib.Core.Path.{subst}
use aerial_ran_platform.Go.Exec.{Leads, ok, ◌>>=◌}
use aerial_ran_platform.Go.Exec.Outcomes.{weaken, bind-Leads, fail_if-Leads}
use aerial_ran_platform.Go.Postgres.{World}
use aerial_ran_platform.Esim.Model.{Esim, EsimRow, PackageRow, Data, Package, OrderRequest}
use aerial_ran_platform.Esim.Provider.{OrderResult}
use aerial_ran_platform.Esim.Repository.{
  create_esim, has_id, has_package_id, scan_package, new_row, returned, deref, deref_int,
}
use aerial_ran_platform.Esim.Repository.Outcomes.{
  Unchanged, Adds, get_package-Leads, create_esim-Leads,
}
use aerial_ran_platform.Esim.Service.{Service, order, new_esim, consult, str_ptr, int_ptr}
use aerial_ran_platform.Esim.Service.Outcomes.{consult-Leads}

-- A text that is kept unless it is empty, and a number unless it is zero.
abbrev pub KeepsText : String → Option String → Type 0
KeepsText s o = ((str_eq s "" ≡ true) × (o ≡ none)) ⊎ ((str_eq s "" ≡ false) × (o ≡ some s))

abbrev pub KeepsNumber : ℤ → Option ℤ → Type 0
KeepsNumber z o = ((is_zero z ≡ true) × (o ≡ none)) ⊎ ((is_zero z ≡ false) × (o ≡ some z))

-- The row has what the provider returned and what the package promises, each in its place.
pub record RowCarries (sku : PackageRow) (sold : OrderResult) (r : EsimRow) : Type 0 where
  pub provider_ref : r.provider_ref ≡ some sold.provider_ref
  pub iccid : r.iccid ≡ some sold.iccid
  pub lpa_string : r.lpa_string ≡ some sold.lpa_string
  pub install_url : r.install_url ≡ some sold.install_url
  pub expires_at : r.expires_at ≡ sold.expires_at
  pub package_id : r.package_id ≡ some sku.id
  pub package_label : r.package_label ≡ some sku.label
  pub data_mb : r.data_mb ≡ some sku.data_mb
  pub validity_days : r.validity_days ≡ some sku.validity_days
  pub status : r.status ≡ "ordered"
  pub activated_at : r.activated_at ≡ none

-- The answer has the same, without what is empty.
pub record Carries (sku : PackageRow) (sold : OrderResult) (t : Esim) : Type 0 where
  pub provider_ref : KeepsText sold.provider_ref t.provider_ref
  pub iccid : KeepsText sold.iccid t.iccid
  pub lpa_string : KeepsText sold.lpa_string t.lpa_string
  pub install_url : KeepsText sold.install_url t.install_url
  pub expires_at : t.expires_at ≡ sold.expires_at
  pub package_id : KeepsText sku.id t.package_id
  pub package_label : KeepsText sku.label t.package_label
  pub data_mb : KeepsNumber sku.data_mb t.data_mb
  pub validity_days : KeepsNumber sku.validity_days t.validity_days
  pub status : t.status ≡ "ordered"
  pub activated_at : t.activated_at ≡ none

deref-str_ptr : (s : String) → some (deref (str_ptr s)) ≡ some s
deref-str_ptr s = elim (Bool-cases (str_eq s "")) [
  | inl e ↦ rw e (ap (λ (x : String). some x) (ground (arith, eq_iff s "")))
  | inr e ↦ rw e refl
]

deref_int-int_ptr : (z : ℤ) → some (deref_int (int_ptr z)) ≡ some z
deref_int-int_ptr (pos zero) = refl
deref_int-int_ptr (pos (suc n)) = refl
deref_int-int_ptr (negsuc n) = refl

str_ptr-KeepsText : (s : String) → KeepsText s (str_ptr s)
str_ptr-KeepsText s = elim (Bool-cases (str_eq s "")) [
  | inl e ↦ inl (e, rw e refl)
  | inr e ↦ inr (e, rw e refl)
]

int_ptr-KeepsNumber : (z : ℤ) → KeepsNumber z (int_ptr z)
int_ptr-KeepsNumber z = elim (Bool-cases (is_zero z)) [
  | inl e ↦ inl (e, rw e refl)
  | inr e ↦ inr (e, rw e refl)
]

module _ {V : Type 0} (svc : Service V) (org_id : String) (req : OrderRequest) where
  abbrev bought_esim : PackageRow → OrderResult → Esim
  bought_esim sku sold = new_esim svc org_id req (scan_package sku) sold

  returned-Carries :
      (sku : PackageRow) (sold : OrderResult) (r : EsimRow)
      → Carries sku sold (returned svc.repo (bought_esim sku sold) r)
  returned-Carries sku sold r = record {
    provider_ref = str_ptr-KeepsText _;
    iccid = str_ptr-KeepsText _;
    lpa_string = str_ptr-KeepsText _;
    install_url = str_ptr-KeepsText _;
    package_id = str_ptr-KeepsText _;
    package_label = str_ptr-KeepsText _;
    data_mb = int_ptr-KeepsNumber _;
    validity_days = int_ptr-KeepsNumber _;
    expires_at = refl;
    status = refl;
    activated_at = refl;
  }

  new_row-RowCarries :
      (sku : PackageRow) (sold : OrderResult) (org : ℕ) (owner : Option ℕ) (n : ℕ)
      → RowCarries sku sold (new_row svc.repo (bought_esim sku sold) org owner n)
  new_row-RowCarries sku sold org owner n = record {
    provider_ref = deref-str_ptr _;
    iccid = deref-str_ptr _;
    lpa_string = deref-str_ptr _;
    install_url = deref-str_ptr _;
    package_id = deref-str_ptr _;
    package_label = deref-str_ptr _;
    data_mb = deref_int-int_ptr _;
    validity_days = deref_int-int_ptr _;
    expires_at = refl;
    status = refl;
    activated_at = refl;
  }

  -- The package was in the catalogue, the provider sold it, and one row was added, which carries
  -- what the provider returned and what the package promises.
  pub record Placed (made : Esim) (t t' : Data V) : Type 0 where
    pub sku : PackageRow
    pub listed : find (has_package_id req.package_id) t.packages ≡ some sku
    pub sold : OrderResult
    pub purchase :
        svc.prov.order sku.id (String.◌++◌ "aerial-" org_id) t.vendor ≡ (ok sold, t'.vendor)
    pub row : EsimRow
    pub rows : t'.esims ≡ row ∷ t.esims
    pub unused : exists (has_id row.id) t.esims ≡ false
    pub tenant : svc.repo.parse_uuid org_id ≡ some row.org_id
    pub kept : RowCarries sku sold row
    pub shown : Carries sku sold made
    pub same_id : made.id ≡ svc.repo.show_uuid row.id
    pub same_org : made.org_id ≡ org_id
    pub packages : t'.packages ≡ t.packages

  -- Only the provider may have changed.
  pub record NothingStored (t t' : Data V) : Type 0 where
    pub packages : t'.packages ≡ t.packages
    pub esims : t'.esims ≡ t.esims

  unchanged : (t t' : Data V) → t' ≡ t → NothingStored t t'
  unchanged t t' same = record {
    packages = ap (λ (d : Data V). d.packages) same;
    esims = ap (λ (d : Data V). d.esims) same;
  }

  moved_only : (t t' : Data V) (v : V) → t' ≡ record t { vendor = v } → NothingStored t t'
  moved_only t t' v moved = record {
    packages = ap (λ (d : Data V). d.packages) moved;
    esims = ap (λ (d : Data V). d.esims) moved;
  }

  -- The row of a purchase, added to tables in which only the provider has moved.
  placed :
      (t t1 t2 : Data V) (sku : PackageRow) (sold : OrderResult) (v : V) (made : Esim)
      → find (has_package_id req.package_id) t.packages ≡ some sku
      → svc.prov.order sku.id (String.◌++◌ "aerial-" org_id) t.vendor ≡ (ok sold, v)
      → t1 ≡ record t { vendor = v }
      → Adds svc.repo (new_esim svc org_id req (scan_package sku) sold) made t1 t2
      → Placed made t t2
  placed t t1 t2 sku sold v made listed bought moved a = record {
    sku = sku;
    listed = listed;
    sold = sold;
    purchase =
        bought
        ∙ sym (ap (λ (d : Data V). (ok sold, d.vendor)) moved)
        ∙ sym (ap (λ (d : Data V). (ok sold, d.vendor)) a.data_is);
    row = new_row svc.repo (bought_esim sku sold) a.org a.owner a.number;
    rows =
        ap (λ (d : Data V). d.esims) a.data_is
        ∙ (λ i. new_row svc.repo (bought_esim sku sold) a.org a.owner a.number ∷ (moved i).esims);
    unused =
        sym (ap (λ (d : Data V). exists (has_id (svc.repo.fresh a.number)) d.esims) moved)
        ∙ a.fresh;
    tenant = a.parsed;
    kept = new_row-RowCarries sku sold a.org a.owner a.number;
    shown =
        subst (λ (m : Esim). Carries sku sold m) (sym a.made_is)
          (returned-Carries sku sold
            (new_row svc.repo (bought_esim sku sold) a.org a.owner a.number));
    same_id = ap (λ (m : Esim). m.id) a.made_is;
    same_org = ap (λ (m : Esim). m.org_id) a.made_is;
    packages = ap (λ (d : Data V). d.packages) a.data_is ∙ ap (λ (d : Data V). d.packages) moved;
  }

  -- From the package on.
  purchase-Leads :
      (sku : PackageRow) (w : World (Data V))
      → find (has_package_id req.package_id) w.db.packages ≡ some sku
      → Leads
          (λ made w'. Placed made w.db w'.db)
          (λ e w'. NothingStored w.db w'.db)
          (do
            res ← consult (svc.prov.order sku.id (String.◌++◌ "aerial-" org_id))
            create_esim svc.repo (new_esim svc org_id req (scan_package sku) res))
          w
  purchase-Leads sku w listed =
      bind-Leads (consult-Leads (svc.prov.order sku.id (String.◌++◌ "aerial-" org_id)) w)
        (λ sold w1 (bought, moved).
          weaken (create_esim-Leads svc.repo (new_esim svc org_id req (scan_package sku) sold) w1)
            (λ made w2 a.
              placed w.db w1.db w2.db sku sold _ made listed
                (λ i.
                  (bought i, (svc.prov.order sku.id (String.◌++◌ "aerial-" org_id) w.db.vendor).1))
                moved a)
            (λ e w2 same. moved_only w.db w2.db _ (same ∙ moved)))
        (λ e w1 moved. moved_only w.db w1.db _ moved)

  -- An order that returns an eSIM found its package in the catalogue, bought it from the provider
  -- under the reference of the organisation, and added one row, of a new identifier and of the
  -- caller's organisation. The row and the answer carry the provider's reference, ICCID, LPA string,
  -- URL and expiry and the package's identifier, label, allowance and validity, each in its place,
  -- the answer without empty texts and zeros, with the status "ordered". An order that fails adds and changes
  -- no row, whatever failed.
  pub order_outcome :
      (w : World (Data V))
      → Leads
          (λ made w'. Placed made w.db w'.db)
          (λ e w'. NothingStored w.db w'.db)
          (order svc org_id req)
          w
  unfolding order
  order_outcome w =
      bind-Leads {Bad' = Unchanged w.db}
        (weaken (fail_if-Leads {Bad = Unchanged w.db} _ _ (λ _. refl))
          (λ _ w' (_, same). ap (λ (x : World (Data V)). x.db) same) (λ e w' same. same))
        (λ _ w0 here0.
          bind-Leads (get_package-Leads svc.repo req.package_id w0)
            (λ pkg w1 (r, listed, scanned, same1).
              from_package pkg w1 r
                (ap (λ (d : Data V). find (has_package_id req.package_id) d.packages) same1
                  ∙ listed)
                scanned (same1 ∙ here0))
            (λ e w1 same. unchanged w.db w1.db (same ∙ here0)))
        (λ e w0 same. unchanged w.db w0.db same)
    where
      from_package :
          (pkg : Package) (w1 : World (Data V)) (r : PackageRow)
          → find (has_package_id req.package_id) w1.db.packages ≡ some r
          → pkg ≡ scan_package r
          → w1.db ≡ w.db
          → Leads
              (λ made w'. Placed made w.db w'.db)
              (λ e w'. NothingStored w.db w'.db)
              (do
                res ← consult (svc.prov.order pkg.id (String.◌++◌ "aerial-" org_id))
                create_esim svc.repo (new_esim svc org_id req pkg res))
              w1
      from_package pkg w1 r listed scanned same = rw scanned (
          weaken (purchase-Leads r w1 listed)
            (λ made w2 p. subst (λ (t : Data V). Placed made t w2.db) same p)
            (λ e w2 p. subst (λ (t : Data V). NothingStored t w2.db) same p))
