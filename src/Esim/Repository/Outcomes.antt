-- ===== src/Esim/Repository/Outcomes.antt =====
-- Where the methods of the eSIM repository lead.
use aerial_ran_platform.Base.{
  ℕ, String, Bool, true, false, ◌&&◌, Option, none, some, ◌≡◌, refl, arith, find, update, exists,
  inl, inr, List, [], ◌∷◌, ◌∙◌, Bool-cases,
}
use aerial_ran_platform.Base.Int.{ℤ, in_int4}
use aerial_ran_platform.Go.Exec.{Leads}
use aerial_ran_platform.Go.Exec.Outcomes.{pure-Leads, fail-Leads, bind-Leads, if-Leads}
use aerial_ran_platform.Go.Postgres.{Postgres, World, call}
use aerial_ran_platform.Go.Postgres.Outcomes.{
  Settled, call-Leads, call-cast-Leads, cast-Settled, cast_null-Settled,
}
use aerial_ran_platform.Esim.Model.{Package, Esim, PackageRow, EsimRow, Data}
use aerial_ran_platform.Esim.Repository.{
  deref, deref_int, has_id, has_package_id, scan_package, scan, get_package, select_package,
  found_package, get_esim, select_by_id, or_not_found, set_usage, usage_set, change_row, or_missing,
  update_usage, set_status, status_set, create_esim, insert_esim, new_row, add_row, returned,
  upsert_packages, all_storable, list_packages, list_by_org,
}

-- A world with the data `t`.
abbrev pub Unchanged : {V E : Type 0} → Data V → E → World (Data V) → Type 0
Unchanged t e w = w.db ≡ t

-- A world with the eSIMs of `t`.
abbrev pub SameEsims : {V : Type 0} → Data V → World (Data V) → Type 0
SameEsims t w = w.db.esims ≡ t.esims

-- A change that finds no row changes no row.
pub update_none :
    (u : ℕ) (f : EsimRow → EsimRow) (rows : List EsimRow)
    → exists (has_id u) rows ≡ false
    → update (has_id u) f rows ≡ rows
update_none u f [] h = refl
update_none u f (r ∷ rows) h = ground (arith, update_none u f rows)

module _ (server : Postgres) where
  -- `e` is the row of `rows` with the identifier `id`.
  pub record Finds (id : String) (rows : List EsimRow) (e : Esim) : Type 0 where
    pub key : ℕ
    pub row : EsimRow
    pub parsed : server.parse_uuid id ≡ some key
    pub found : find (has_id key) rows ≡ some row
    pub scanned : e ≡ scan server row

module _ {V : Type 0} (server : Postgres) where
  or_not_found-Leads :
      (id : String) (u : ℕ) (t : Data V) (o : Option EsimRow) (w : World (Data V))
      → server.parse_uuid id ≡ some u
      → find (has_id u) t.esims ≡ o
      → w.db ≡ t
      → Leads
          (λ e w'. Finds server id t.esims e × (w'.db ≡ t))
          (Unchanged t)
          (or_not_found server o)
          w
  or_not_found-Leads id u t none w parsed found same = fail-Leads _ same
  or_not_found-Leads id u t (some r) w parsed found same =
      pure-Leads _
        (record { key = u; row = r; parsed = parsed; found = found; scanned = refl }, same)

  select_by_id-Leads :
      (id : String) (w : World (Data V))
      → Leads
          (λ row w'.
            (u : ℕ) × (server.parse_uuid id ≡ some u)
            × (find (has_id u) w.db.esims ≡ row)
            × (w'.db ≡ w.db))
          (Unchanged w.db)
          (call server.fault (select_by_id server id))
          w
  select_by_id-Leads id w =
      call-cast-Leads server.fault (server.parse_uuid id) _ (λ f. refl) refl
        (λ u e. (u, e, refl, refl))

  pub get_esim-Leads :
      (id : String) (w : World (Data V))
      → Leads
          (λ e w'. Finds server id w.db.esims e × (w'.db ≡ w.db))
          (Unchanged w.db)
          (get_esim server id)
          w
  unfolding get_esim
  get_esim-Leads id w =
      bind-Leads (select_by_id-Leads id w)
        (λ row w' (u, parsed, found, same). or_not_found-Leads id u w.db row w' parsed found same)
        (λ e w' same. same)

  -- The package of `id` in the catalogue.
  pub get_package-Leads :
      (id : String) (w : World (Data V))
      → Leads
          (λ pkg w'.
            (r : PackageRow) × (find (has_package_id id) w.db.packages ≡ some r)
            × (pkg ≡ scan_package r)
            × (w'.db ≡ w.db))
          (Unchanged w.db)
          (get_package server id)
          w
  unfolding get_package
  get_package-Leads id w =
      bind-Leads {Good' = λ o w'. (find (has_package_id id) w.db.packages ≡ o) × (w'.db ≡ w.db)}
        (call-Leads server.fault (select_package id) (λ f. refl) (refl, refl))
        (λ o w' (found, same). or_missing_package o w' found same) (λ e w' same. same)
    where
      or_missing_package :
          (o : Option PackageRow) (w' : World (Data V))
          → find (has_package_id id) w.db.packages ≡ o
          → w'.db ≡ w.db
          → Leads
              (λ pkg u.
                (r : PackageRow) × (find (has_package_id id) w.db.packages ≡ some r)
                × (pkg ≡ scan_package r)
                × (u.db ≡ w.db))
              (Unchanged w.db)
              (found_package o)
              w'
      or_missing_package none w' found same = fail-Leads _ same
      or_missing_package (some r) w' found same = pure-Leads _ (r, found, refl, same)

  -- `t` with the row of `id` changed by `f`, a row that exists.
  pub record Changes (id : String) (f : ℕ → EsimRow → EsimRow) (t t' : Data V) : Type 0 where
    pub key : ℕ
    pub now : ℕ
    pub parsed : server.parse_uuid id ≡ some key
    pub listed : exists (has_id key) t.esims ≡ true
    pub data_is : t' ≡ record t { esims = update (has_id key) (f now) t.esims }

  -- What the statement leaves, whether it found a row or not.
  abbrev Touched : String → (ℕ → EsimRow → EsimRow) → Data V → Bool → World (Data V) → Type 0
  Touched id f t affected w' =
      (u : ℕ) × (n : ℕ) × (server.parse_uuid id ≡ some u)
      × (exists (has_id u) t.esims ≡ affected)
      × (w'.db ≡ record t { esims = update (has_id u) (f n) t.esims })

  or_missing-Leads :
      (id : String) (f : ℕ → EsimRow → EsimRow) (t : Data V) (affected : Bool) (w : World (Data V))
      → Touched id f t affected w
      → Leads (λ _ w'. Changes id f t w'.db) (Unchanged t) (or_missing server affected) w
  or_missing-Leads id f t affected w (u, n, parsed, listed, data_is) =
      if-Leads affected
        (λ e.
          pure-Leads _
            (record { key = u; now = n; parsed = parsed; listed = listed ∙ e; data_is = data_is }))
        (λ e.
          fail-Leads _
            (data_is ∙ (λ i. record t { esims = update_none u (f n) t.esims (listed ∙ e) i })))

  change_row-Leads :
      (id : String) (f : ℕ → EsimRow → EsimRow) (w : World (Data V))
      → Leads
          (Touched id f w.db)
          (Unchanged w.db)
          (call server.fault λ n t. change_row server id (f (server.now n)) t)
          w
  change_row-Leads id f w =
      call-cast-Leads server.fault (server.parse_uuid id) _ (λ x. refl) refl
        (λ u e. (u, server.now w.tick, e, refl, refl))

  pub set_status-Leads :
      (id status : String) (w : World (Data V))
      → Leads
          (λ _ w'. Changes id (status_set status) w.db w'.db)
          (Unchanged w.db)
          (set_status server id status)
          w
  unfolding set_status
  set_status-Leads id status w =
      bind-Leads (change_row-Leads id (status_set status) w)
        (λ affected w' h. or_missing-Leads id (status_set status) w.db affected w' h)
        (λ e w' same. same)

  set_usage-Leads :
      (id : String) (usage : ℤ) (w : World (Data V))
      → Leads
          (Touched id (usage_set usage) w.db)
          (Unchanged w.db)
          (call server.fault (set_usage server id usage))
          w
  set_usage-Leads id usage w =
      call-Leads server.fault _ (λ x. refl)
        (elim (Bool-cases (in_int4 usage)) [
          | inl fits ↦ rw fits (
              cast-Settled (Touched id (usage_set usage) w.db) (Unchanged w.db) w
                (server.parse_uuid id) _ refl (λ u e. (u, server.now w.tick, e, refl, refl)))
          | inr big ↦ rw big refl
        ])

  pub update_usage-Leads :
      (id : String) (usage : ℤ) (w : World (Data V))
      → Leads
          (λ _ w'. Changes id (usage_set usage) w.db w'.db)
          (Unchanged w.db)
          (update_usage server id usage)
          w
  unfolding update_usage
  update_usage-Leads id usage w =
      bind-Leads (set_usage-Leads id usage w)
        (λ affected w' h. or_missing-Leads id (usage_set usage) w.db affected w' h)
        (λ e w' same. same)

  -- `t` with a new row for `e`, whose identifier no row had.
  pub record Adds (e made : Esim) (t t' : Data V) : Type 0 where
    pub org : ℕ
    pub owner : Option ℕ
    pub number : ℕ
    pub parsed : server.parse_uuid e.org_id ≡ some org
    pub fresh : exists (has_id (server.fresh number)) t.esims ≡ false
    pub made_is : made ≡ returned server e (new_row server e org owner number)
    pub data_is : t' ≡ record t { esims = new_row server e org owner number ∷ t.esims }

  insert_esim-Leads :
      (e : Esim) (w : World (Data V))
      → Leads
          (λ row w'. Adds e (returned server e row) w.db w'.db)
          (Unchanged w.db)
          (call server.fault (insert_esim server e))
          w
  insert_esim-Leads e w =
      call-Leads server.fault (insert_esim server e) (λ f. refl)
        (elim (Bool-cases (in_int4 (deref_int e.data_mb) && in_int4 (deref_int e.validity_days))) [
          | inl fits ↦ rw fits (
              cast-Settled Good (Unchanged w.db) w (server.parse_uuid e.org_id) _ refl (λ u p.
                cast_null-Settled Good (Unchanged w.db) w server (deref e.owner_user_id) _ refl
                  (λ v. added u v p)))
          | inr big ↦ rw big refl
        ])
    where
      Good : EsimRow → World (Data V) → Type 0
      Good row w' = Adds e (returned server e row) w.db w'.db

      added :
          (u : ℕ) (v : Option ℕ)
          → server.parse_uuid e.org_id ≡ some u
          → Settled Good (Unchanged w.db) w (add_row (new_row server e u v w.tick) w.db)
      added u v p = elim (Bool-cases (exists (has_id (server.fresh w.tick)) w.db.esims)) [
        | inl taken ↦ rw taken refl
        | inr free ↦ rw free (record {
          org = u;
          owner = v;
          number = w.tick;
          parsed = p;
          fresh = free;
          made_is = refl;
          data_is = refl;
        })
      ]

  pub create_esim-Leads :
      (e : Esim) (w : World (Data V))
      → Leads (λ made w'. Adds e made w.db w'.db) (Unchanged w.db) (create_esim server e) w
  unfolding create_esim
  create_esim-Leads e w =
      bind-Leads (insert_esim-Leads e w) (λ row w' h. pure-Leads _ h) (λ x w' same. same)

  -- The catalogue's statements leave the eSIMs alone.
  pub upsert_packages-Leads :
      (ks : List Package) (w : World (Data V))
      → Leads (λ _ w'. SameEsims w.db w') (λ e w'. SameEsims w.db w') (upsert_packages server ks) w
  unfolding upsert_packages
  upsert_packages-Leads [] w = pure-Leads _ refl
  upsert_packages-Leads (k ∷ ks) w =
      call-Leads server.fault _ (λ f. refl)
        (elim (Bool-cases (all_storable (k ∷ ks))) [
          | inl fits ↦ rw fits refl
          | inr big ↦ rw big refl
        ])

  pub list_packages-Leads :
      (region : String) (w : World (Data V))
      → Leads (λ _ w'. w'.db ≡ w.db) (Unchanged w.db) (list_packages server region) w
  unfolding list_packages
  list_packages-Leads region w =
      bind-Leads {Good' = Unchanged w.db} (call-Leads server.fault _ (λ f. refl) refl)
        (λ rows w' same. pure-Leads _ same) (λ e w' same. same)

  pub list_by_org-Leads :
      (org_id : String) (w : World (Data V))
      → Leads (λ _ w'. w'.db ≡ w.db) (Unchanged w.db) (list_by_org server org_id) w
  unfolding list_by_org
  list_by_org-Leads org_id w =
      bind-Leads {Good' = Unchanged w.db}
        (call-cast-Leads server.fault (server.parse_uuid org_id) _ (λ f. refl) refl (λ u e. refl))
        (λ rows w' same. pure-Leads _ same) (λ e w' same. same)
