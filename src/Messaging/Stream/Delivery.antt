-- ===== src/Messaging/Stream/Delivery.antt =====
-- What a stream writes to its socket.
use aerial_ran_platform.Base.{
  ℕ, suc, String, false, List, [], ◌∷◌, ◌++◌, map, ◌≡◌, refl, sym, ap, ◌∙◌, All, Bool-cases, inl,
  inr, take, select, str_eq, eq_iff,
}
use text.Mathlib.TextLemmas.{append_cancel_left}
use mathlib.Core.List.{append_assoc, append-nil}
use aerial_ran_platform.Messaging.Model.{Message, Published}
use aerial_ran_platform.Messaging.Service.{subject_of}
use aerial_ran_platform.Messaging.Stream.{
  Event, arrived, broken, Session, Conditions, delivered, pump, on_subject, feed, opened,
}

-- The messages that arrive before the consumer breaks.
abbrev pub arrivals : List Event → List Message
arrivals [] = []
arrivals (broken ∷ es) = []
arrivals (arrived m ∷ es) = m ∷ arrivals es

-- The session wrote and acknowledged the first `count` of `ms`, behind what `s` had.
pub record Wrote (ms : List Message) (s s' : Session) : Type 0 where
  pub count : ℕ
  pub written : s'.written ≡ s.written ++ take count ms
  pub acked : s'.acked ≡ s.acked ++ take count ms

nothing-Wrote : (ms : List Message) (s : Session) → Wrote ms s s
nothing-Wrote ms s = record {
  count = 0;
  written = sym (append-nil s.written);
  acked = sym (append-nil s.acked);
}

first-Wrote :
    (m : Message) (ms : List Message) (s s' : Session)
    → Wrote ms (delivered m s) s'
    → Wrote (m ∷ ms) s s'
first-Wrote m ms s s' w = record {
  count = suc w.count;
  written = w.written ∙ append_assoc s.written (m ∷ []) (take w.count ms);
  acked = w.acked ∙ append_assoc s.acked (m ∷ []) (take w.count ms);
}

pump-Wrote :
    (c : Conditions) (k : ℕ) (es : List Event) (s : Session) → Wrote (arrivals es) s (pump c k es s)
unfolding pump
pump-Wrote c k [] s = nothing-Wrote [] s
pump-Wrote c k (broken ∷ es) s = nothing-Wrote [] s
pump-Wrote c k (arrived m ∷ es) s = elim (Bool-cases (c.done k)) [
  | inl e ↦ rw e (nothing-Wrote (m ∷ arrivals es) s)
  | inr e ↦ elim (Bool-cases (c.write_fails k)) [
    | inl f ↦ rw (e, f) (nothing-Wrote (m ∷ arrivals es) s)
    | inr f ↦ rw (e, f) (first-Wrote m (arrivals es) s _ (pump-Wrote c (suc k) es (delivered m s)))
  ]
]

-- No turn of the loop finds the context done or fails to write.
abbrev pub Undisturbed : Conditions → Type 0
Undisturbed c = (k : ℕ) → (c.done k ≡ false) × (c.write_fails k ≡ false)

pump_all :
    (c : Conditions) (k : ℕ) (es : List Event) (s : Session)
    → Undisturbed c
    → (pump c k es s).written ≡ s.written ++ arrivals es
unfolding pump
pump_all c k [] s calm = sym (append-nil s.written)
pump_all c k (broken ∷ es) s calm = sym (append-nil s.written)
pump_all c k (arrived m ∷ es) s calm =
    rw ((calm k).0, (calm k).1)
      (pump_all c (suc k) es (delivered m s) calm ∙ append_assoc s.written (m ∷ []) (arrivals es))

-- What was published under the subject of a user, in order.
abbrev pub published_to : String → List Published → List Message
published_to user log =
    map (λ (p : Published). p.payload) (select (on_subject (subject_of user)) log)

arrivals-feed :
    (user : String) (log : List Published) → arrivals (feed user log) ≡ published_to user log
arrivals-feed user [] = refl
arrivals-feed user (p ∷ log) = elim (Bool-cases (str_eq p.subject (subject_of user))) [
  | inl e ↦ rw e (ap (λ (ms : List Message). p.payload ∷ ms) (arrivals-feed user log))
  | inr e ↦ rw e (arrivals-feed user log)
]

-- However a stream ends, it has written a first part of what was published under its user's
-- subject since its consumer was made, each message once and in the order of publication, and has
-- acknowledged exactly what it wrote.
pub stream-Wrote :
    (c : Conditions) (user : String) (log : List Published)
    → Wrote (published_to user log) opened (pump c 0 (feed user log) opened)
stream-Wrote c user log = rw (sym (arrivals-feed user log)) (pump-Wrote c 0 (feed user log) opened)

-- When the context lasts and no write fails, a stream writes every message that was published
-- under its user's subject since its consumer was made, in the order of publication.
pub stream_delivers :
    (c : Conditions) (user : String) (log : List Published)
    → Undisturbed c
    → (pump c 0 (feed user log) opened).written ≡ published_to user log
stream_delivers c user log calm = pump_all c 0 (feed user log) opened calm ∙ arrivals-feed user log

-- Every publication stands under the subject of its recipient.
pub record IsAddressed (p : Published) : Type 0 where
  pub addressed : p.subject ≡ subject_of p.payload.to_user

-- If every publication stands under the subject of its recipient, what a user's stream feeds on
-- is addressed to the user.
pub published_to_mine :
    (user : String) (log : List Published)
    → All IsAddressed log
    → All (λ m. m.to_user ≡ user) (published_to user log)
published_to_mine user [] h = tt
published_to_mine user (p ∷ log) (a, h) = elim (Bool-cases (str_eq p.subject (subject_of user))) [
  | inl e ↦ rw e (
    append_cancel_left "core.event.message.sent." _ _
        (sym a.addressed ∙ (eq_iff p.subject (subject_of user)).0 e),
    published_to_mine user log h,
  )
  | inr e ↦ rw e (published_to_mine user log h)
]

pub published_to-append :
    (user : String) (log more : List Published)
    → published_to user (log ++ more) ≡ published_to user log ++ published_to user more
published_to-append user [] more = refl
published_to-append user (p ∷ log) more = elim (Bool-cases (str_eq p.subject (subject_of user))) [
  | inl e ↦ rw e (ap (λ (ms : List Message). p.payload ∷ ms) (published_to-append user log more))
  | inr e ↦ rw e (published_to-append user log more)
]
