-- ===== src/Messaging/Service/Outcomes.antt =====
-- What a send leaves, whatever fails, and what an inbox returns.
use aerial_ran_platform.Base.{
  ℕ, suc, String, false, none, some, List, [], ◌∷◌, ◌++◌, ◌≡◌, ◌⊎◌, inl, inr, refl, ap, ◌∙◌, sym,
  exists, Bool-cases, Option-cases,
}
use mathlib.Core.Path.{subst}
use aerial_ran_platform.Go.Errors.{Err}
use aerial_ran_platform.Go.Exec.{Leads}
use aerial_ran_platform.Go.Exec.Outcomes.{
  weaken, pure-Leads, bind-Leads, attempt-Leads, fail_if-Leads,
}
use aerial_ran_platform.Go.Postgres.{Fault, World, call}
use aerial_ran_platform.Go.Postgres.Outcomes.{Settled, call-Leads, cast-Settled}
use aerial_ran_platform.Messaging.Model.{
  Sentinel, Message, SendRequest, MessageRow, Published, Data,
}
use aerial_ran_platform.Messaging.Service.{
  Service, subject_of, has_row_id, add_row, new_row, insert_message, returned, new_message, publish,
  send,
}

module _ (svc : Service) (org_id from_user : String) (req : SendRequest) where
  abbrev Unchanged : Data → Err Sentinel → World Data → Type 0
  Unchanged t e w = w.db ≡ t

  -- The row of a message in the table `t'`, new in `t`.
  pub record Stored (m : Message) (t t' : Data) : Type 0 where
    pub org : ℕ
    pub from : ℕ
    pub to : ℕ
    pub number : ℕ
    pub parsed :
        (svc.pool.parse_uuid org_id ≡ some org)
        × (svc.pool.parse_uuid from_user ≡ some from)
        × (svc.pool.parse_uuid req.to_user_id ≡ some to)
    pub unused : exists (has_row_id (svc.pool.fresh number)) t.messages ≡ false
    pub rows : t'.messages ≡ new_row svc req.body org from to number ∷ t.messages
    pub message :
        m
        ≡ returned svc (new_message org_id from_user req) (new_row svc req.body org from to number)

  -- What is appended to the log.
  abbrev pub entry : Message → List Published
  entry m = (record { subject = subject_of req.to_user_id; payload = m }) ∷ []

  -- JetStream met a fault at the call of number `n`.
  abbrev pub Faulted : ℕ → Type 0
  Faulted n = (f : Fault) × (svc.js n ≡ some f)

  -- What the publication, the call of number `n`, did: without a fault the message is in the log
  -- under its recipient's subject, and with one the log is as it was.
  abbrev pub MaybePublished : ℕ → Message → Data → Data → Type 0
  MaybePublished n m t t' =
      (Faulted n × (t'.log ≡ t.log)) ⊎ ((svc.js n ≡ none) × (t'.log ≡ t.log ++ entry m))

  insert-Leads :
      (w : World Data)
      → Leads
          (λ row w'.
            Stored (returned svc (new_message org_id from_user req) row) w.db w'.db
            × (w'.db.log ≡ w.db.log)
            × (w'.tick ≡ suc w.tick))
          (Unchanged w.db)
          (call svc.pool.fault (insert_message svc (new_message org_id from_user req)))
          w
  insert-Leads w =
      call-Leads svc.pool.fault _ (λ f. refl)
        (cast-Settled Good (Unchanged w.db) w (svc.pool.parse_uuid org_id) _ refl (λ org p.
          cast-Settled Good (Unchanged w.db) w (svc.pool.parse_uuid from_user) _ refl (λ from q.
            cast-Settled Good (Unchanged w.db) w (svc.pool.parse_uuid req.to_user_id) _ refl
              (λ to r. added org from to p q r))))
    where
      Good : MessageRow → World Data → Type 0
      Good row w' =
          Stored (returned svc (new_message org_id from_user req) row) w.db w'.db
          × (w'.db.log ≡ w.db.log)
          × (w'.tick ≡ suc w.tick)

      added :
          (org from to : ℕ)
          → svc.pool.parse_uuid org_id ≡ some org
          → svc.pool.parse_uuid from_user ≡ some from
          → svc.pool.parse_uuid req.to_user_id ≡ some to
          → Settled Good (Unchanged w.db) w (add_row (new_row svc req.body org from to w.tick) w.db)
      added org from to p q r =
          elim (Bool-cases (exists (has_row_id (svc.pool.fresh w.tick)) w.db.messages)) [
            | inl taken ↦ rw taken refl
            | inr free ↦ rw free (
              record {
                org = org;
                from = from;
                to = to;
                number = w.tick;
                parsed = (p, q, r);
                unused = free;
                rows = refl;
                message = refl;
              },
              refl,
              refl,
            )
          ]

  publish-Leads :
      (m : Message) (w : World Data)
      → Leads
          (λ _ w'.
            (svc.js w.tick ≡ none)
            × (w'.db.messages ≡ w.db.messages)
            × (w'.db.log
                ≡ w.db.log ++ ((record { subject = subject_of m.to_user; payload = m }) ∷ [])))
          (λ e w'. Faulted w.tick × (w'.db ≡ w.db))
          (publish svc m)
          w
  unfolding publish call
  publish-Leads m w = record {
    at = elim (Option-cases (svc.js w.tick)) [
      | inl quiet ↦ rw quiet (refl, refl, refl)
      | inr (f, broken) ↦ rw broken ((f, refl), refl)
    ];
  }

  -- A send that returns a message has added one row for it, of the caller's organisation and from
  -- the caller, and has published it under its recipient's subject; only when JetStream failed at
  -- that call is it stored without being published. A send that fails has stored and published
  -- nothing.
  pub send_outcome :
      (w : World Data)
      → Leads
          (λ m w'. Stored m w.db w'.db × MaybePublished (suc w.tick) m w.db w'.db)
          (λ e w'. w'.db ≡ w.db)
          (send svc org_id from_user req)
          w
  unfolding send
  send_outcome w =
      bind-Leads {Bad' = Unchanged w.db} {Good' = λ _ w'. w' ≡ w}
        (weaken (fail_if-Leads {Bad = Unchanged w.db} _ _ (λ _. refl)) (λ _ w' (_, same). same)
          (λ e w' same. same))
        (λ _ w0 start.
          let same0 : w0.db ≡ w.db = ap (λ (x : World Data). x.db) start in
          bind-Leads (insert-Leads w0)
            (λ row w1 (s, quiet, next).
              let turn : w1.tick ≡ suc w.tick = next ∙ ap (λ (x : World Data). suc x.tick) start in
              attempt-Leads _ (publish-Leads _ w1)
                (λ _ w2 (up, rows, grown). pure-Leads _ (
                  onto w0.db w1.db w2.db same0 rows s,
                  inr (
                    ap svc.js (sym turn) ∙ up,
                    grown
                        ∙ ap
                            (λ (l : List Published).
                              l ++ entry (returned svc (new_message org_id from_user req) row))
                            (quiet ∙ ap (λ (d : Data). d.log) same0),
                  ),
                ))
                (λ e w2 (down, same). pure-Leads _ (
                  onto w0.db w1.db w2.db same0 (ap (λ (d : Data). d.messages) same) s,
                  inl (
                    subst Faulted turn down,
                    ap (λ (d : Data). d.log) same ∙ quiet ∙ ap (λ (d : Data). d.log) same0,
                  ),
                )))
            (λ e w1 same. same ∙ same0))
        (λ e w' same. same)
    where
      onto :
          {m : Message} (t0 t1 t2 : Data)
          → t0 ≡ w.db
          → t2.messages ≡ t1.messages
          → Stored m t0 t1
          → Stored m w.db t2
      onto t0 t1 t2 same rows s = record {
        org = s.org;
        from = s.from;
        to = s.to;
        number = s.number;
        parsed = s.parsed;
        unused =
            ap (λ (d : Data). exists (has_row_id (svc.pool.fresh s.number)) d.messages) (sym same)
            ∙ s.unused;
        rows =
            rows
            ∙ s.rows
            ∙ ap (λ (d : Data). new_row svc req.body s.org s.from s.to s.number ∷ d.messages) same;
        message = s.message;
      }
