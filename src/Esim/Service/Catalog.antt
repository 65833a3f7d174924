-- ===== src/Esim/Service/Catalog.antt =====
-- What a refresh of the catalogue leaves in the table of packages.
use aerial_ran_platform.Base.{
  ℕ, String, true, false, some, List, [], ◌∷◌, map, ◌≡◌, refl, find, exists, update, ap, ◌∙◌, arith,
  All, str_eq, str_eq_refl, eq_iff, Bool-cases, inl, inr,
}
use aerial_ran_platform.Go.Exec.{Leads, ok, ◌>>=◌}
use aerial_ran_platform.Go.Exec.Outcomes.{bind-Leads, pure-Leads, gets-Leads}
use aerial_ran_platform.Go.Postgres.{World}
use aerial_ran_platform.Go.Postgres.Outcomes.{call-Leads}
use aerial_ran_platform.Esim.Model.{PackageRow, Package, Data}
use aerial_ran_platform.Esim.Provider.{PackageOffering}
use aerial_ran_platform.Esim.Repository.{
  has_package_id, row_of, refreshed, upsert_package, upsert_all, upsert_packages, all_storable,
}
use aerial_ran_platform.Esim.Service.{Service, consult, ask, refresh_catalog, package_of}

-- The catalogue has `k` under its identifier, with its terms and price; the name of the provider
-- is that of the first refresh that listed it.
pub record Lists (k : Package) (rows : List PackageRow) : Type 0 where
  pub row : PackageRow
  pub found : find (has_package_id k.id) rows ≡ some row
  pub label : row.label ≡ k.label
  pub region : row.region ≡ some k.region
  pub data_mb : row.data_mb ≡ k.data_mb
  pub validity_days : row.validity_days ≡ k.validity_days
  pub price : row.price_usd_cents ≡ k.price_usd_cents
  pub fetched_at : row.fetched_at ≡ k.fetched_at

-- The catalogue has the offer under its identifier, with its terms and price, as of `now`; the name
-- of the provider is that of the first refresh that listed it.
pub record Sells (o : PackageOffering) (now : ℕ) (rows : List PackageRow) : Type 0 where
  pub row : PackageRow
  pub found : find (has_package_id o.id) rows ≡ some row
  pub label : row.label ≡ o.label
  pub region : row.region ≡ some o.region
  pub data_mb : row.data_mb ≡ o.data_mb
  pub validity_days : row.validity_days ≡ o.validity_days
  pub price : row.price_usd_cents ≡ o.price_usd_cents
  pub fetched_at : row.fetched_at ≡ now

-- The answer lists the offer as a package of the provider of this name.
pub record Shows (name : String) (o : PackageOffering) (k : Package) : Type 0 where
  pub id : k.id ≡ o.id
  pub provider : k.provider ≡ name
  pub label : k.label ≡ o.label
  pub region : k.region ≡ o.region
  pub data_mb : k.data_mb ≡ o.data_mb
  pub validity_days : k.validity_days ≡ o.validity_days
  pub price : k.price_usd_cents ≡ o.price_usd_cents

-- One package for each offer, in order.
abbrev pub ShowsAll : String → List PackageOffering → List Package → Type 0
ShowsAll name [] [] = Unit
ShowsAll name [] (k ∷ ks) = ⊥
ShowsAll name (o ∷ os) [] = ⊥
ShowsAll name (o ∷ os) (k ∷ ks) = Shows name o k × ShowsAll name os ks

-- No two of the offers have one identifier.
abbrev pub AreDistinct : List PackageOffering → Type 0
AreDistinct [] = Unit
AreDistinct (o ∷ os) = All (λ j. str_eq o.id j.id ≡ false) os × AreDistinct os

-- No two of the packages have one identifier.
abbrev pub HasDistinctIds : List Package → Type 0
HasDistinctIds [] = Unit
HasDistinctIds (k ∷ ks) = All (λ j. str_eq k.id j.id ≡ false) ks × HasDistinctIds ks

find-update_self :
    (k : Package) (rows : List PackageRow)
    → exists (has_package_id k.id) rows ≡ true
    → (r : PackageRow) × (find
          (has_package_id k.id)
          (update (has_package_id k.id) (refreshed k) rows)
        ≡ some (refreshed k r))
find-update_self k [] h = absurd (ground arith)
find-update_self k (r ∷ rows) h = elim (Bool-cases (str_eq r.id k.id)) [
  | inl e ↦ (r, rw (e, e) refl)
  | inr e ↦ let (s, found) = find-update_self k rows (ground arith) in (s, rw (e, e) found)
]

find-update_other :
    (k : Package) (id : String) (rows : List PackageRow)
    → str_eq k.id id ≡ false
    → find (has_package_id id) (update (has_package_id k.id) (refreshed k) rows)
      ≡ find (has_package_id id) rows
find-update_other k id [] ne = refl
find-update_other k id (r ∷ rows) ne =
    ground (arith, eq_iff r.id k.id, eq_iff r.id id, eq_iff k.id id, find-update_other k id rows ne)

upserted-Lists : (k : Package) (rows : List PackageRow) → Lists k (upsert_package k rows)
unfolding upsert_package
upserted-Lists k rows = elim (Bool-cases (exists (has_package_id k.id) rows)) [
  | inl e ↦
      let (r, found) = find-update_self k rows e in
      rw e (record {
        row = refreshed k r;
        found = found;
        label = refl;
        region = refl;
        data_mb = refl;
        validity_days = refl;
        price = refl;
        fetched_at = refl;
      })
  | inr e ↦ rw e (record {
    row = row_of k;
    found = rw (str_eq_refl k.id) refl;
    label = refl;
    region = refl;
    data_mb = refl;
    validity_days = refl;
    price = refl;
    fetched_at = refl;
  })
]

find-upsert_other :
    (k : Package) (id : String) (rows : List PackageRow)
    → str_eq k.id id ≡ false
    → find (has_package_id id) (upsert_package k rows) ≡ find (has_package_id id) rows
unfolding upsert_package
find-upsert_other k id rows ne = elim (Bool-cases (exists (has_package_id k.id) rows)) [
  | inl e ↦ rw e (find-update_other k id rows ne)
  | inr e ↦ rw (e, ne) refl
]

Lists-upsert_other :
    (j k : Package) (rows : List PackageRow)
    → str_eq k.id j.id ≡ false
    → Lists j rows
    → Lists j (upsert_package k rows)
Lists-upsert_other j k rows ne l = record {
  row = l.row;
  found = find-upsert_other k j.id rows ne ∙ l.found;
  label = l.label;
  region = l.region;
  data_mb = l.data_mb;
  validity_days = l.validity_days;
  price = l.price;
  fetched_at = l.fetched_at;
}

Lists-upsert_all :
    (j : Package) (ks : List Package) (rows : List PackageRow)
    → All (λ k. str_eq j.id k.id ≡ false) ks
    → Lists j rows
    → Lists j (upsert_all ks rows)
Lists-upsert_all j [] rows ne l = l
Lists-upsert_all j (k ∷ ks) rows (ne, nes) l =
    Lists-upsert_all j ks (upsert_package k rows) nes
      (Lists-upsert_other j k rows (flipped j.id k.id ne) l)
  where
    flipped : (s t : String) → str_eq s t ≡ false → str_eq t s ≡ false
    flipped s t h = ground (arith, eq_iff s t, eq_iff t s)

upsert_all-Lists :
    (ks : List Package) (rows : List PackageRow)
    → HasDistinctIds ks
    → All (λ k. Lists k (upsert_all ks rows)) ks
upsert_all-Lists [] rows d = tt
upsert_all-Lists (k ∷ ks) rows (ne, d) = (
  Lists-upsert_all k ks (upsert_package k rows) ne (upserted-Lists k rows),
  upsert_all-Lists ks (upsert_package k rows) d,
)

module _ {V : Type 0} (svc : Service V) where
  -- What the statement leaves of packages with distinct identifiers.
  upsert_packages-Lists :
      (ks : List Package) (w : World (Data V))
      → HasDistinctIds ks
      → Leads
          (λ _ w'. All (λ k. Lists k w'.db.packages) ks)
          (λ e w'. w'.db ≡ w.db)
          (upsert_packages svc.repo ks)
          w
  unfolding upsert_packages
  upsert_packages-Lists [] w d = pure-Leads _ tt
  upsert_packages-Lists (k ∷ ks) w d =
      call-Leads svc.repo.fault _ (λ f. refl)
        (elim (Bool-cases (all_storable (k ∷ ks))) [
          | inl fits ↦ rw fits (upsert_all-Lists (k ∷ ks) w.db.packages d)
          | inr big ↦ rw big refl
        ])

  -- What the provider offers: packages of distinct identifiers.
  pub record Offers (region : String) (v v' : V) (offers : List PackageOffering) : Type 0 where
    pub returned : svc.prov.catalog region v ≡ (ok offers, v')
    pub distinct : AreDistinct offers

  HasDistinctIds-package_of :
      (offers : List PackageOffering) (n : ℕ)
      → AreDistinct offers
      → HasDistinctIds (map (package_of svc n) offers)
  HasDistinctIds-package_of [] n d = tt
  HasDistinctIds-package_of (o ∷ os) n (ne, d) = (apart os ne, HasDistinctIds-package_of os n d)
    where
      apart :
          (xs : List PackageOffering)
          → All (λ j. str_eq o.id j.id ≡ false) xs
          → All (λ j. str_eq o.id j.id ≡ false) (map (package_of svc n) xs)
      apart [] h = tt
      apart (x ∷ xs) (h, hs) = (h, apart xs hs)

  shown :
      (now : ℕ) (os : List PackageOffering)
      → ShowsAll svc.prov.name os (map (package_of svc now) os)
  shown now [] = tt
  shown now (o ∷ os) = (
    record {
      id = refl;
      provider = refl;
      label = refl;
      region = refl;
      data_mb = refl;
      validity_days = refl;
      price = refl;
    },
    shown now os,
  )

  sold :
      (now : ℕ) (os : List PackageOffering) (rows : List PackageRow)
      → All (λ k. Lists k rows) (map (package_of svc now) os)
      → All (λ o. Sells o now rows) os
  sold now [] rows h = tt
  sold now (o ∷ os) rows (l, ls) = (
    record {
      row = l.row;
      found = l.found;
      label = l.label;
      region = l.region;
      data_mb = l.data_mb;
      validity_days = l.validity_days;
      price = l.price;
      fetched_at = l.fetched_at;
    },
    sold now os rows ls,
  )

  offered-Leads :
      (region : String) (offers : List PackageOffering) (v' : V) (w : World (Data V))
      → Offers region w.db.vendor v' offers
      → Leads
          (λ got w'. (got ≡ offers) × (w'.db.packages ≡ w.db.packages))
          (λ e w'. ⊥)
          (consult (svc.prov.catalog region))
          w
  unfolding consult ask ◌>>=◌
  offered-Leads region offers v' w o = record { at = rw o.returned (refl, refl) }

  -- When the provider offers packages of distinct identifiers, a refresh that succeeds answers
  -- with exactly these packages, in order, under the provider's name, and each of them is in the
  -- catalogue; in the answer and in the catalogue each has the label, region, allowance, validity
  -- and price that were offered. A refresh that fails leaves the catalogue alone.
  pub refresh_catalog-Lists :
      (region : String) (offers : List PackageOffering) (v' : V) (w : World (Data V))
      → Offers region w.db.vendor v' offers
      → Leads
          (λ ks w'.
            (now : ℕ) × ShowsAll svc.prov.name offers ks
            × All (λ offer. Sells offer now w'.db.packages) offers)
          (λ e w'. w'.db.packages ≡ w.db.packages)
          (refresh_catalog svc region)
          w
  unfolding refresh_catalog
  refresh_catalog-Lists region offers v' w o =
      bind-Leads (offered-Leads region offers v' w o)
        (λ got w1 (same, moved).
          bind-Leads {Bad' = λ x w'. ⊥} {Good' = λ n w'. w' ≡ w1} (gets-Leads _ refl)
            (λ now w2 here. rw same (
              bind-Leads
                (upsert_packages-Lists (map (package_of svc now) offers) w2
                  (HasDistinctIds-package_of offers now o.distinct))
                (λ _ w3 l. pure-Leads _ (now, shown now offers, sold now offers w3.db.packages l))
                (λ e w3 k.
                  ap (λ (d : Data V). d.packages) k
                  ∙ ap (λ (x : World (Data V)). x.db.packages) here
                  ∙ moved)))
            (λ x w' n. absurd n))
        (λ e w1 n. absurd n)
