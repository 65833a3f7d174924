-- ===== src/Messaging/Stream.antt =====
-- svc-aerial-messaging/internal/messaging/messaging.go: what happens on an open stream. The
-- consumer is JetStream's: what `it.Next` returns, one after the other, is a list of events; a list
-- that ends stands for a consumer that waits.
pub mod Delivery
use aerial_ran_platform.Base.{
  ℕ, suc, String, Bool, true, false, List, [], ◌∷◌, ◌++◌, map, select, str_eq, if◌then◌else◌,
}
use aerial_ran_platform.Messaging.Model.{Message, Published}
use aerial_ran_platform.Messaging.Service.{subject_of}

pub data Event : Type 0 where
  arrived : Message → Event
  broken : Event

-- What was written to the socket and acknowledged to JetStream.
pub record Session : Type 0 where
  pub written : List Message
  pub acked : List Message

-- Whether the context is done, and whether the write fails, at each turn.
pub record Conditions : Type 0 where
  pub done : ℕ → Bool
  pub write_fails : ℕ → Bool

abbrev pub delivered : Message → Session → Session
delivered m s = record { written = s.written ++ (m ∷ []); acked = s.acked ++ (m ∷ []) }

-- The loop, from its turn `k` on.
unfoldable pub pump : Conditions → ℕ → List Event → Session → Session
pump c k [] s = s
pump c k (broken ∷ es) s = s
pump c k (arrived m ∷ es) s =
    let rest = pump c (suc k) es (delivered m s) in
    if c.done k then s else if c.write_fails k then s else rest

-- The filter of a consumer. A user's identifier is a UUID, so the subject has no wildcard.
abbrev pub on_subject : String → Published → Bool
on_subject subject p = str_eq p.subject subject

-- An ordered consumer that is filtered to the user's subject, with `DeliverNewPolicy`: what was
-- published there since it was made, in order.
abbrev pub feed : String → List Published → List Event
feed user published =
    map (λ (p : Published). arrived p.payload) (select (on_subject (subject_of user)) published)

abbrev pub opened : Session
opened = record { written = []; acked = [] }
