-- ===== src/Subscriber/Repository/Outcomes.antt =====
-- Where the methods of the SIM repository lead.
use aerial_ran_platform.Base.{
  ℕ, String, true, false, Option, none, some, ◌≡◌, refl, arith, find, update, exists, inl, inr,
  List, [], ◌∷◌, ◌∙◌, Bool-cases,
}
use aerial_ran_platform.Go.Exec.{Leads}
use aerial_ran_platform.Go.Exec.Outcomes.{
  pure-Leads, fail-Leads, bind-Leads, if-Leads, attempt-Leads,
}
use aerial_ran_platform.Go.Postgres.{Postgres, World, call}
use aerial_ran_platform.Go.Postgres.Outcomes.{Settled, call-cast-Leads, call-cast_null-Leads}
use aerial_ran_platform.Subscriber.Model.{Sim, SimRow, Data}
use aerial_ran_platform.Subscriber.Repository.{
  has_id, scan, get_by_id, select_by_id, or_not_found, update_status, set_status, with_status,
  create, insert_sim, clashes, new_row, add_row, created, returned, mark_provisioned, provisioned,
  ptr_to_str,
}

-- A world with the data `t`.
abbrev pub Unchanged : {E : Type 0} → Data → E → World Data → Type 0
Unchanged t e w = w.db ≡ t

pub data_eq : {t t' : Data} → t.sims ≡ t'.sims → t.subscribers ≡ t'.subscribers → t ≡ t'
data_eq p q = λ i. record { sims = p i; subscribers = q i }

-- A change that finds no row changes no row.
pub update_none :
    (u : ℕ) (f : SimRow → SimRow) (rows : List SimRow)
    → exists (has_id u) rows ≡ false
    → update (has_id u) f rows ≡ rows
update_none u f [] h = refl
update_none u f (r ∷ rows) h = ground (arith, update_none u f rows)

module _ (server : Postgres) where
  -- `sim` is the row of `sims` with the identifier `id`.
  pub record Finds (id : String) (sims : List SimRow) (sim : Sim) : Type 0 where
    pub key : ℕ
    pub row : SimRow
    pub parsed : server.parse_uuid id ≡ some key
    pub found : find (has_id key) sims ≡ some row
    pub scanned : sim ≡ scan server row

  or_not_found-Leads :
      (id : String) (u : ℕ) (t : Data) (o : Option SimRow) (w : World Data)
      → server.parse_uuid id ≡ some u
      → find (has_id u) t.sims ≡ o
      → w.db ≡ t
      → Leads (λ sim w'. Finds id t.sims sim × (w'.db ≡ t)) (Unchanged t) (or_not_found server o) w
  or_not_found-Leads id u t none w parsed found same = fail-Leads _ same
  or_not_found-Leads id u t (some r) w parsed found same =
      pure-Leads _
        (record { key = u; row = r; parsed = parsed; found = found; scanned = refl }, same)

  select_by_id-Leads :
      (id : String) (w : World Data)
      → Leads
          (λ row w'.
            (u : ℕ) × (server.parse_uuid id ≡ some u)
            × (find (has_id u) w.db.sims ≡ row)
            × (w'.db ≡ w.db))
          (Unchanged w.db)
          (call server.fault (select_by_id server id))
          w
  select_by_id-Leads id w =
      call-cast-Leads server.fault (server.parse_uuid id) _ (λ f. refl) refl
        (λ u e. (u, e, refl, refl))

  pub get_by_id-Leads :
      (id : String) (w : World Data)
      → Leads
          (λ sim w'. Finds id w.db.sims sim × (w'.db ≡ w.db))
          (Unchanged w.db)
          (get_by_id server id)
          w
  unfolding get_by_id
  get_by_id-Leads id w =
      bind-Leads (select_by_id-Leads id w)
        (λ row w' (u, parsed, found, same). or_not_found-Leads id u w.db row w' parsed found same)
        (λ e w' same. same)

  -- `t` with the status of the row of `id` set, a row that exists.
  pub record SetsStatus (id status : String) (t t' : Data) : Type 0 where
    pub key : ℕ
    pub now : ℕ
    pub parsed : server.parse_uuid id ≡ some key
    pub listed : exists (has_id key) t.sims ≡ true
    pub sims : t'.sims ≡ update (has_id key) (with_status status now) t.sims
    pub subscribers : t'.subscribers ≡ t.subscribers

  set_status-Leads :
      (id status : String) (w : World Data)
      → Leads
          (λ affected w'.
            (u : ℕ) × (n : ℕ) × (server.parse_uuid id ≡ some u)
            × (exists (has_id u) w.db.sims ≡ affected)
            × (w'.db.sims ≡ update (has_id u) (with_status status n) w.db.sims)
            × (w'.db.subscribers ≡ w.db.subscribers))
          (Unchanged w.db)
          (call server.fault (set_status server id status))
          w
  set_status-Leads id status w =
      call-cast-Leads server.fault (server.parse_uuid id) _ (λ f. refl) refl
        (λ u e. (u, server.now w.tick, e, refl, refl, refl))

  pub update_status-Leads :
      (id status : String) (w : World Data)
      → Leads
          (λ _ w'. SetsStatus id status w.db w'.db)
          (Unchanged w.db)
          (update_status server id status)
          w
  unfolding update_status
  update_status-Leads id status w =
      bind-Leads (set_status-Leads id status w)
        (λ affected w' (u, n, parsed, listed, sims, docs).
          if-Leads affected
            (λ e. pure-Leads _ (record {
              key = u;
              now = n;
              parsed = parsed;
              listed = listed ∙ e;
              sims = sims;
              subscribers = docs;
            }))
            (λ e. fail-Leads _ (data_eq (sims ∙ update_none u _ w.db.sims (listed ∙ e)) docs)))
        (λ e w' same. same)

  -- `t` with the row of `id`, if there is one, marked as provisioned.
  pub record Marks (id : String) (t t' : Data) : Type 0 where
    pub key : ℕ
    pub now : ℕ
    pub parsed : server.parse_uuid id ≡ some key
    pub data_is : t' ≡ record t { sims = update (has_id key) (provisioned now) t.sims }

  pub mark_provisioned-Leads :
      (id : String) (w : World Data)
      → Leads (λ _ w'. Marks id w.db w'.db) (Unchanged w.db) (mark_provisioned server id) w
  unfolding mark_provisioned
  mark_provisioned-Leads id w =
      call-cast-Leads server.fault (server.parse_uuid id) _ (λ f. refl) refl
        (λ u e. record { key = u; now = server.now w.tick; parsed = e; data_is = refl })

  -- `t` with a new row for `s`, whose identifier and IMSI no row had.
  pub record Adds (s made : Sim) (t t' : Data) : Type 0 where
    pub row : SimRow
    pub imsi : row.imsi ≡ s.imsi
    pub status : row.status ≡ s.status
    pub keys : (row.ki ≡ s.ki) × (row.opc ≡ s.opc)
    pub org : server.parse_uuid s.org_id ≡ some row.org_id
    pub fresh : exists (clashes row.id row.imsi) t.sims ≡ false
    pub made_is : made ≡ returned server s row
    pub data_is : t' ≡ record t { sims = row ∷ t.sims }

  insert_sim-Leads :
      (s : Sim) (w : World Data)
      → Leads
          (λ row w'. Adds s (returned server s row) w.db w'.db)
          (Unchanged w.db)
          (call server.fault (insert_sim server s))
          w
  insert_sim-Leads s w =
      call-cast_null-Leads server.fault server (server.parse_uuid s.org_id)
        (ptr_to_str s.owner_user_id) (λ u v n t. add_row (new_row server s u v n) t) (λ f. refl)
        refl (λ u v e. added u v e)
    where
      added :
          (u : ℕ) (v : Option ℕ)
          → server.parse_uuid s.org_id ≡ some u
          → Settled
              (λ row w'. Adds s (returned server s row) w.db w'.db)
              (Unchanged w.db)
              w
              (add_row (new_row server s u v w.tick) w.db)
      added u v e = elim (Bool-cases (exists (clashes (server.fresh w.tick) s.imsi) w.db.sims)) [
        | inl taken ↦ rw taken refl
        | inr free ↦ rw free (record {
          row = new_row server s u v w.tick;
          imsi = refl;
          status = refl;
          keys = (refl, refl);
          org = e;
          fresh = free;
          made_is = refl;
          data_is = refl;
        })
      ]

  pub create-Leads :
      (s : Sim) (w : World Data)
      → Leads (λ made w'. Adds s made w.db w'.db) (Unchanged w.db) (create server s) w
  unfolding create
  create-Leads s w =
      attempt-Leads (created server s) (insert_sim-Leads s w) (λ row w' h. pure-Leads _ h)
        (λ e w' same. fail-Leads _ same)
