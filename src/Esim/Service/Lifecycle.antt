-- ===== src/Esim/Service/Lifecycle.antt =====
-- The life cycle of an eSIM as a step relation on the table, and that the operations implement it.
use aerial_ran_platform.Base.{
  ℕ, String, false, none, some, List, ◌∷◌, ◌≡◌, refl, find, exists, update, sym, ap, ◌∙◌,
}
use mathlib.Core.Option.{some-injective}
use mathlib.Core.Path.{subst}
use aerial_ran_platform.Base.Int.{ℤ, pos}
use aerial_ran_platform.Go.Exec.{Leads, ◌>>=◌}
use aerial_ran_platform.Go.Exec.Outcomes.{weaken, bind-Leads, fail_if-Leads, pure-Leads, gets-Leads}
use aerial_ran_platform.Go.Postgres.{Postgres, World}
use aerial_ran_platform.Esim.Model.{Esim, EsimRow, Data, OrderRequest}
use aerial_ran_platform.Esim.Repository.{create_esim, new_row, has_id, usage_set, status_set}
use aerial_ran_platform.Esim.Repository.Outcomes.{
  SameEsims, Changes, get_esim-Leads, get_package-Leads, create_esim-Leads, update_usage-Leads,
  set_status-Leads, upsert_packages-Leads, list_packages-Leads, list_by_org-Leads,
}
use aerial_ran_platform.Esim.Service.{
  Service, Op, order, get, list_by_org, refresh_usage, mark_activated, cancel, refresh_catalog,
  list_packages, owned_by_org, new_esim,
}
use aerial_ran_platform.Esim.Service.Outcomes.{
  Owns, owned_by_org-Leads, consult-SameEsims, withdraw-Leads,
}

-- One step of the table at the request of an organisation: nothing, a new eSIM of it in its first
-- state, or a change of one that it owns.
pub data Step (server : Postgres) (org_id : String) (t t' : List EsimRow) : Type 0 where
  idle : t' ≡ t → Step server org_id t t'
  ordered :
      (row : EsimRow)
      → exists (has_id row.id) t ≡ false
      → server.parse_uuid org_id ≡ some row.org_id
      → row.status ≡ "ordered"
      → row.activated_at ≡ none
      → row.last_usage_mb ≡ pos 0
      → t' ≡ row ∷ t
      → Step server org_id t t'
  metered :
      (row : EsimRow) (key : ℕ) (usage : ℤ) (now : ℕ)
      → find (has_id key) t ≡ some row
      → server.show_uuid row.org_id ≡ org_id
      → t' ≡ update (has_id key) (usage_set usage now) t
      → Step server org_id t t'
  activated :
      (row : EsimRow) (key now : ℕ)
      → find (has_id key) t ≡ some row
      → server.show_uuid row.org_id ≡ org_id
      → t' ≡ update (has_id key) (status_set "active" now) t
      → Step server org_id t t'
  cancelled :
      (row : EsimRow) (key now : ℕ)
      → find (has_id key) t ≡ some row
      → server.show_uuid row.org_id ≡ org_id
      → t' ≡ update (has_id key) (status_set "cancelled" now) t
      → Step server org_id t t'

module _ {V : Type 0} (svc : Service V) (org_id : String) where
  -- An outcome of either kind is one step away from the table `t`.
  abbrev pub Steps : {A : Type 0} → List EsimRow → Op V A → World (Data V) → Type 0
  Steps t m w =
      Leads (λ _ w'. Step svc.repo org_id t w'.db.esims)
        (λ e w'. Step svc.repo org_id t w'.db.esims) m w

  abbrev esims_of : {t t' : Data V} → t ≡ t' → t.esims ≡ t'.esims
  esims_of p = ap (λ (d : Data V). d.esims) p

  -- A part that leaves the table alone, then one that makes a step.
  idle_then :
      {A B : Type 0} {Good : A → World (Data V) → Type 0} (t : List EsimRow) (m : Op V A)
      (f : A → Op V B) (w : World (Data V))
      → w.db.esims ≡ t
      → Leads (λ a w'. SameEsims w.db w' × Good a w') (λ e w'. SameEsims w.db w') m w
      → ((a : A) (w' : World (Data V)) → w'.db.esims ≡ t → Good a w' → Steps t (f a) w')
      → Steps t (m >>= f) w
  idle_then t m f w here h k =
      bind-Leads h (λ a w' (same, g). k a w' (same ∙ here) g) (λ e w' same. idle (same ∙ here))

  -- Only reads and calls of the provider.
  idle_only :
      {A : Type 0} (m : Op V A) (w : World (Data V))
      → Leads (λ a w'. SameEsims w.db w') (λ e w'. SameEsims w.db w') m w
      → Steps w.db.esims m w
  idle_only m w h = weaken h (λ a w' same. idle same) (λ e w' same. idle same)

  -- The check of the owner, then a part that makes a step.
  owned_then :
      {B : Type 0} (id : String) (f : Esim → Op V B) (w : World (Data V))
      → ((e : Esim) (w' : World (Data V))
          → Owns svc org_id id w.db.esims e
          → w'.db.esims ≡ w.db.esims
          → Steps w.db.esims (f e) w')
      → Steps w.db.esims (owned_by_org svc org_id id >>= f) w
  owned_then id f w k =
      idle_then {Good = λ e w'. Owns svc org_id id w.db.esims e} w.db.esims _ f w refl
        (weaken (owned_by_org-Leads svc org_id id w) (λ e w' (o, same). (esims_of same, o))
          (λ x w' same. esims_of same))
        (λ e w' here o. k e w' o here)

  -- A change of the row that was found and checked is one of a row that the caller owns.
  module _ (id : String) (t t' : Data V) (e : Esim) (rows : List EsimRow)
      (f : ℕ → EsimRow → EsimRow) (o : Owns svc org_id id rows e) (same : t.esims ≡ rows)
      (c : Changes svc.repo id f t t') where
    found_row : find (has_id c.key) rows ≡ some o.finds.row
    found_row =
        ap (λ (k : ℕ). find (has_id k) rows) (some-injective _ _ (sym c.parsed ∙ o.finds.parsed))
        ∙ o.finds.found

    owned_row : svc.repo.show_uuid o.finds.row.org_id ≡ org_id
    owned_row = ap (λ (x : Esim). x.org_id) (sym o.finds.scanned) ∙ o.mine

    changed_rows : t'.esims ≡ update (has_id c.key) (f c.now) rows
    changed_rows = esims_of c.data_is ∙ ap (update (has_id c.key) (f c.now)) same

  pub order-Steps :
      (req : OrderRequest) (w : World (Data V)) → Steps w.db.esims (order svc org_id req) w
  unfolding order
  order-Steps req w =
      idle_then {Good = λ _ _. Unit} w.db.esims _ _ w refl
        (weaken (fail_if-Leads {Bad = λ e w'. SameEsims w.db w'} _ _ (λ _. refl))
          (λ _ w' (_, same). (ap (λ (x : World (Data V)). x.db.esims) same, tt))
          (λ e w' same. same))
        (λ _ w0 here0 _.
          idle_then {Good = λ _ _. Unit} w.db.esims _ _ w0 here0
            (weaken (get_package-Leads svc.repo req.package_id w0)
              (λ pkg w' (_, _, _, same). (esims_of same, tt)) (λ e w' same. esims_of same))
            (λ pkg w1 here1 _.
              idle_then {Good = λ _ _. Unit} w.db.esims _ _ w1 here1
                (weaken (consult-SameEsims _ w1) (λ res w' same. (same, tt)) (λ e w' same. same))
                (λ res w2 here2 _. inserted (new_esim svc org_id req pkg res) w2 refl refl here2)))
    where
      inserted :
          (e : Esim) (w2 : World (Data V))
          → e.org_id ≡ org_id
          → e.status ≡ "ordered"
          → w2.db.esims ≡ w.db.esims
          → Steps w.db.esims (create_esim svc.repo e) w2
      inserted e w2 mine first here =
          weaken (create_esim-Leads svc.repo e w2)
            (λ made w3 a.
              ordered (new_row svc.repo e a.org a.owner a.number)
                (ap (exists (has_id (svc.repo.fresh a.number))) (sym here) ∙ a.fresh)
                (ap svc.repo.parse_uuid (sym mine) ∙ a.parsed) first refl refl
                (esims_of a.data_is
                  ∙ ap (λ rows. new_row svc.repo e a.org a.owner a.number ∷ rows) here))
            (λ x w3 same. idle (esims_of same ∙ here))

  pub refresh_usage-Steps :
      (id : String) (w : World (Data V)) → Steps w.db.esims (refresh_usage svc org_id id) w
  unfolding refresh_usage
  refresh_usage-Steps id w = owned_then id _ w (λ e w1 o here1.
      idle_then {Good = λ _ _. Unit} w.db.esims _ _ w1 here1
        (weaken (consult-SameEsims _ w1) (λ u w' same. (same, tt)) (λ x w' same. same))
        (λ usage w2 here2 _.
          bind-Leads (update_usage-Leads svc.repo id usage w2)
            (λ _ w3 c.
              let step : Step svc.repo org_id w.db.esims w3.db.esims =
                metered o.finds.row c.key usage c.now
                  (found_row id w2.db w3.db e w.db.esims (usage_set usage) o here2 c)
                  (owned_row id w2.db w3.db e w.db.esims (usage_set usage) o here2 c)
                  (changed_rows id w2.db w3.db e w.db.esims (usage_set usage) o here2 c) in
              weaken (get_esim-Leads svc.repo id w3)
                (λ _ w4 (_, same).
                  subst (Step svc.repo org_id w.db.esims) (sym (esims_of same)) step)
                (λ _ w4 same. subst (Step svc.repo org_id w.db.esims) (sym (esims_of same)) step))
            (λ x w3 same. idle (esims_of same ∙ here2))))

  pub mark_activated-Steps :
      (id : String) (w : World (Data V)) → Steps w.db.esims (mark_activated svc org_id id) w
  unfolding mark_activated
  mark_activated-Steps id w = owned_then id _ w (λ e w1 o here.
      weaken (set_status-Leads svc.repo id "active" w1)
        (λ _ w2 c.
          activated o.finds.row c.key c.now
            (found_row id w1.db w2.db e w.db.esims (status_set "active") o here c)
            (owned_row id w1.db w2.db e w.db.esims (status_set "active") o here c)
            (changed_rows id w1.db w2.db e w.db.esims (status_set "active") o here c))
        (λ x w2 same. idle (esims_of same ∙ here)))

  pub cancel-Steps : (id : String) (w : World (Data V)) → Steps w.db.esims (cancel svc org_id id) w
  unfolding cancel
  cancel-Steps id w = owned_then id _ w (λ e w1 o here1.
      idle_then {Good = λ _ _. Unit} w.db.esims _ _ w1 here1
        (weaken (withdraw-Leads svc e.provider_ref w1) (λ _ w' same. (same, tt))
          (λ x w' n. absurd n))
        (λ _ w2 here2 _.
          weaken (set_status-Leads svc.repo id "cancelled" w2)
            (λ _ w3 c.
              cancelled o.finds.row c.key c.now
                (found_row id w2.db w3.db e w.db.esims (status_set "cancelled") o here2 c)
                (owned_row id w2.db w3.db e w.db.esims (status_set "cancelled") o here2 c)
                (changed_rows id w2.db w3.db e w.db.esims (status_set "cancelled") o here2 c))
            (λ x w3 same. idle (esims_of same ∙ here2))))

  pub refresh_catalog-Steps :
      (region : String) (w : World (Data V)) → Steps w.db.esims (refresh_catalog svc region) w
  unfolding refresh_catalog
  refresh_catalog-Steps region w =
      idle_then {Good = λ _ _. Unit} w.db.esims _ _ w refl
        (weaken (consult-SameEsims _ w) (λ u w' same. (same, tt)) (λ x w' same. same))
        (λ offers w1 here1 _.
          idle_then {Good = λ _ _. Unit} w.db.esims _ _ w1 here1 (gets-Leads _ (refl, tt))
            (λ now w2 here2 _.
              idle_then {Good = λ _ _. Unit} w.db.esims _ _ w2 here2
                (weaken (upsert_packages-Leads svc.repo _ w2) (λ u w' same. (same, tt))
                  (λ x w' same. same))
                (λ _ w3 here3 _. pure-Leads _ (idle here3))))

  -- The reads.
  pub get-Steps : (id : String) (w : World (Data V)) → Steps w.db.esims (get svc org_id id) w
  unfolding get
  get-Steps id w = idle_only _ w (
      weaken (owned_by_org-Leads svc org_id id w) (λ e w' (_, same). esims_of same)
        (λ x w' same. esims_of same))

  pub list_by_org-Steps : (w : World (Data V)) → Steps w.db.esims (list_by_org svc org_id) w
  unfolding list_by_org
  list_by_org-Steps w = idle_only _ w (
      weaken (list_by_org-Leads svc.repo org_id w) (λ e w' same. esims_of same)
        (λ x w' same. esims_of same))

  pub list_packages-Steps :
      (region : String) (w : World (Data V)) → Steps w.db.esims (list_packages svc region) w
  unfolding list_packages
  list_packages-Steps region w = idle_only _ w (
      weaken (list_packages-Leads svc.repo region w) (λ e w' same. esims_of same)
        (λ x w' same. esims_of same))
