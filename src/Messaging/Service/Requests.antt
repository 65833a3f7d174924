-- ===== src/Messaging/Service/Requests.antt =====
-- Any sequence of sends, with any faults: what the log holds, and what the streams feed on.
use text.Mathlib.TextLemmas.{append_cancel_left}
use aerial_ran_platform.Base.{
  ℕ, suc, String, false, none, some, List, [], ◌∷◌, ◌++◌, ◌≡◌, ◌≢◌, inl, inr, refl, sym, ap, ◌∙◌,
  All, exists, str_eq, str_eq-false,
}
use mathlib.Core.Path.{subst}
use mathlib.Core.List.{append-nil}
use aerial_ran_platform.Go.Errors.{Err}
use aerial_ran_platform.Go.Exec.{Result, ok, err, Outcome, ◌>>=◌}
use aerial_ran_platform.Go.Postgres.{World, call}
use aerial_ran_platform.Messaging.Model.{Sentinel, Message, SendRequest, Published, Data}
use aerial_ran_platform.Messaging.Service.{Service, subject_of, send, has_row_id, publish, new_row}
use aerial_ran_platform.Messaging.Service.Outcomes.{Stored, MaybePublished, send_outcome}
use aerial_ran_platform.Messaging.Stream.Delivery.{
  IsAddressed, published_to, published_to_mine, published_to-append,
}

-- Who sends, and what.
pub record Sending : Type 0 where
  pub org_id : String
  pub from_user : String
  pub request : SendRequest

All-append :
    (P : Published → Type 0) (ps qs : List Published) → All P ps → All P qs → All P (ps ++ qs)
All-append P [] qs h k = k
All-append P (p ∷ ps) qs (a, h) k = (a, All-append P ps qs h k)

module _ (svc : Service) where
  unfoldable pub serve_all : List Sending → World Data → World Data
  serve_all [] w = w
  serve_all (s ∷ ss) w = serve_all ss (send svc s.org_id s.from_user s.request w).1

  sent-IsAddressed :
      (s : Sending) (n : ℕ) (t : Data) (x : Result (Err Sentinel) Message × World Data)
      → Outcome
          (λ m w'.
            Stored svc s.org_id s.from_user s.request m t w'.db
            × MaybePublished svc s.org_id s.from_user s.request n m t w'.db)
          (λ e w'. w'.db ≡ t)
          x
      → All IsAddressed t.log
      → All IsAddressed x.1.db.log
  sent-IsAddressed s n t (err e, w) same h =
      subst (λ (d : Data). All IsAddressed d.log) (sym same) h
  sent-IsAddressed s n t (ok m, w) (stored, inl (_, quiet)) h =
      subst (All IsAddressed) (sym quiet) h
  sent-IsAddressed s n t (ok m, w) (stored, inr (_, grown)) h =
      subst (All IsAddressed) (sym grown) (
        All-append IsAddressed t.log _ h (
          record { addressed = ap (λ (x : Message). subject_of x.to_user) (sym stored.message) },
          tt,
        ))

  -- From a log in which every publication stands under the subject of its recipient, after any
  -- sequence of sends by anyone and whatever fails, everything that a user's stream can write is
  -- addressed to that user.
  pub streams_are_private :
      (ss : List Sending) (w : World Data) (user : String)
      → All IsAddressed w.db.log
      → All (λ m. m.to_user ≡ user) (published_to user (serve_all ss w).db.log)
  unfolding serve_all
  streams_are_private [] w user h = published_to_mine user w.db.log h
  streams_are_private (s ∷ ss) w user h =
      streams_are_private ss (send svc s.org_id s.from_user s.request w).1 user
        (sent-IsAddressed s _ w.db _ (send_outcome svc s.org_id s.from_user s.request w).at h)

  -- A send that meets no fault, for a recipient whose identifier is written otherwise than the
  -- database prints it: the row is stored for the user of this identifier, and the user's stream
  -- gets nothing of it.
  pub other_spelling_is_not_streamed :
      (org_id from_user : String) (req : SendRequest) (org from to : ℕ) (w : World Data)
      → str_eq req.to_user_id "" ≡ false
      → str_eq req.body "" ≡ false
      → svc.pool.fault w.tick ≡ none
      → svc.js (suc w.tick) ≡ none
      → svc.pool.parse_uuid org_id ≡ some org
      → svc.pool.parse_uuid from_user ≡ some from
      → svc.pool.parse_uuid req.to_user_id ≡ some to
      → svc.pool.show_uuid to ≢ req.to_user_id
      → exists (has_row_id (svc.pool.fresh w.tick)) w.db.messages ≡ false
      → ((send svc org_id from_user req w).1.db.messages
          ≡ new_row svc req.body org from to w.tick ∷ w.db.messages)
        × (published_to (svc.pool.show_uuid to) (send svc org_id from_user req w).1.db.log
            ≡ published_to (svc.pool.show_uuid to) w.db.log)
  unfolding send publish call ◌>>=◌
  other_spelling_is_not_streamed org_id from_user req org from to w named written f j p q r other
        free =
      (
        rw (named, written, f, p, q, r, free, j) refl,
        rw (named, written, f, p, q, r, free, j)
            (published_to-append (svc.pool.show_uuid to) w.db.log _
              ∙ ap (λ (ms : List Message). published_to (svc.pool.show_uuid to) w.db.log ++ ms)
                  (unmatched (subject_of req.to_user_id) _ differs)
              ∙ append-nil _),
      )
    where
      differs : subject_of req.to_user_id ≢ subject_of (svc.pool.show_uuid to)
      differs e = other (sym (append_cancel_left "core.event.message.sent." _ _ e))

      unmatched :
          (subject : String) (m : Message)
          → subject ≢ subject_of (svc.pool.show_uuid to)
          → published_to (svc.pool.show_uuid to) ((record { subject = subject; payload = m }) ∷ [])
            ≡ []
      unmatched subject m ne = rw (str_eq-false _ _ ne) refl
