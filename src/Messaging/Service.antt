-- ===== src/Messaging/Service.antt =====
-- svc-aerial-messaging/internal/messaging/messaging.go: sending and the inbox. A publication is a
-- call of JetStream, which appends to the log or fails with no effect.
pub mod Outcomes
pub mod Inbox
pub mod Requests
use Prim.Native.String
use aerial_ran_platform.Base.{
  ℕ, String, Bool, ◌||◌, Option, none, some, List, [], ◌∷◌, ◌++◌, map, str_eq, ◌==◌, ltb, take,
  select, exists, sort_by, if◌then◌else◌,
}
use aerial_ran_platform.Base.Int.{ℤ, pos, negsuc}
use aerial_ran_platform.Go.Errors.{Err, pg, sentinel}
use aerial_ran_platform.Go.Exec.{Result, ok, err, Exec, pure, fail_if, attempt, ◌>>=◌, ◌>>◌}
use aerial_ran_platform.Go.Postgres.{Postgres, Fault, World, call, cast}
use aerial_ran_platform.Messaging.Model.{
  Sentinel, invalid_message, Message, SendRequest, MessageRow, Published, Data,
}

-- The database, and the faults of JetStream.
pub record Service : Type 0 where
  pub pool : Postgres
  pub js : ℕ → Option Fault

abbrev pub Op : Type 0 → Type 0
Op A = Exec (World Data) (Err Sentinel) A

abbrev pub Answer : Type 0 → Type 0
Answer A = Result (Err Sentinel) (A × Data)

-- `fmt.Sprintf("%s.%s", subjectSent, user)`
abbrev pub subject_of : String → String
subject_of user = String.◌++◌ "core.event.message.sent." user

abbrev pub has_row_id : ℕ → MessageRow → Bool
has_row_id u r = r.id == u

abbrev pub is_to : ℕ → MessageRow → Bool
is_to u r = r.to_user_id == u

abbrev pub newer : MessageRow → MessageRow → Bool
newer a b = ltb b.created_at a.created_at

abbrev pub add_row : MessageRow → Data → Answer MessageRow
add_row r t =
    if exists (has_row_id r.id) t.messages
    then err (pg "23505")
    else ok (r, record t { messages = r ∷ t.messages })

abbrev pub append : String → Message → ℕ → Data → Answer (Unit {0})
append subject m n t =
    ok (tt, record t { log = t.log ++ ((record { subject = subject; payload = m }) ∷ []) })

-- `if limit <= 0 || limit > 200 { limit = 50 }`
abbrev pub effective_limit : ℤ → ℕ
effective_limit (negsuc n) = 50
effective_limit (pos n) = if n == 0 || ltb 200 n then 50 else n

abbrev pub new_message : String → String → SendRequest → Message
new_message org_id from_user req = record {
  id = "";
  org_id = org_id;
  from_user = from_user;
  to_user = req.to_user_id;
  body = req.body;
  created_at = 0;
}

module _ (svc : Service) where
  abbrev pub new_row : String → ℕ → ℕ → ℕ → ℕ → MessageRow
  new_row body org from to n = record {
    id = svc.pool.fresh n;
    org_id = org;
    from_user_id = from;
    to_user_id = to;
    body = body;
    created_at = svc.pool.now n;
  }

  abbrev pub insert_message : Message → ℕ → Data → Answer MessageRow
  insert_message m n t = cast (svc.pool.parse_uuid m.org_id) λ org.
      cast (svc.pool.parse_uuid m.from_user)
        λ from. cast (svc.pool.parse_uuid m.to_user) λ to. add_row (new_row m.body org from to n) t

  -- `RETURNING id::text, created_at`, scanned into the message.
  abbrev pub returned : Message → MessageRow → Message
  returned m r = record m { id = svc.pool.show_uuid r.id; created_at = r.created_at }

  unfoldable pub publish : Message → Op (Unit {0})
  publish m = call svc.js (append (subject_of m.to_user) m)

  -- The result of the publication is ignored.
  unfoldable pub send : String → String → SendRequest → Op Message
  send org_id from_user req = do
    fail_if (str_eq req.to_user_id "" || str_eq req.body "") (sentinel invalid_message)
    row ← call svc.pool.fault (insert_message (new_message org_id from_user req))
    attempt (publish (returned (new_message org_id from_user req) row))
    pure (returned (new_message org_id from_user req) row)

  -- A row scanned into `messaging.Message`.
  abbrev pub scan : MessageRow → Message
  scan r = record {
    id = svc.pool.show_uuid r.id;
    org_id = svc.pool.show_uuid r.org_id;
    from_user = svc.pool.show_uuid r.from_user_id;
    to_user = svc.pool.show_uuid r.to_user_id;
    body = r.body;
    created_at = r.created_at;
  }

  -- `WHERE to_user_id = $1::uuid ORDER BY created_at DESC LIMIT $2`
  abbrev pub select_inbox : String → ℕ → ℕ → Data → Answer (List MessageRow)
  select_inbox user limit n t =
      cast (svc.pool.parse_uuid user)
        λ u. ok (take limit (sort_by newer (select (is_to u) t.messages)), t)

  unfoldable pub inbox : String → ℤ → Op (List Message)
  inbox user limit = do
    rows ← call svc.pool.fault (select_inbox user (effective_limit limit))
    pure (map scan rows)
