-- ===== src/Messaging/Handler.antt =====
-- svc-aerial-messaging/internal/messaging/messaging.go: the endpoints. A request is the claims that
-- the middleware left in its context, if any, and its decoded body (none when the JSON is invalid).
use aerial_ran_platform.Base.{
  String, Bool, Option, none, some, List, [], ◌∷◌, str_eq, trim_space, split_commas, if◌then◌else◌,
}
use aerial_ran_platform.Base.Int.{pos}
use aerial_ran_platform.Go.Errors.{Err, errors_is}
use aerial_ran_platform.Go.Postgres.{World}
use aerial_ran_platform.Respond.{Response, json, error, text, error_text, db_error, reply}
use aerial_ran_platform.Jwt.{Claims}
use aerial_ran_platform.Messaging.Model.{
  Sentinel, same, invalid_message, Message, SendRequest, Data,
}
use aerial_ran_platform.Messaging.Service
use aerial_ran_platform.Messaging.Service.{Service, subject_of}
use aerial_ran_platform.Messaging.Stream.{Event, Session, Conditions, pump, opened}

abbrev pub Endpoint : Type 0 → Type 0
Endpoint A = World Data → Response Sentinel A × World Data

abbrev pub with_claims : {A : Type 0} → Option Claims → (Claims → Endpoint A) → Endpoint A
with_claims none f w = (error 401 "unauthorized" (text "no token"), w)
with_claims (some c) f w = f c w

abbrev pub with_body : {A B : Type 0} → Option B → (B → Endpoint A) → Endpoint A
with_body none f w = (error 400 "bad_request" (text "invalid json"), w)
with_body (some b) f w = f b w

unfoldable pub send_err : {A : Type 0} → Err Sentinel → Response Sentinel A
send_err e =
    if errors_is same e invalid_message then error 400 "bad_request" (error_text e) else db_error e

-- How a stream ends before its loop, or what its loop did.
pub data Streamed : Type 0 where
  refused : Streamed
  not_upgraded : Streamed
  closed : String → Streamed
  pumped : Session → Streamed

-- What JetStream's client does when a consumer is asked for.
pub data Consumed : Type 0 where
  no_consumer no_messages : Consumed
  consuming : List Event → Consumed

abbrev pub run_stream : Conditions → Consumed → Streamed
run_stream c no_consumer = closed "consumer: "
run_stream c no_messages = closed "messages: "
run_stream c (consuming es) = pumped (pump c 0 es opened)

-- `websocket.Accept` decides on the upgrade; `consume` is the consumer of a subject.
unfoldable pub stream : Option Claims → Bool → (String → Consumed) → Conditions → Streamed
stream none accepted consume c = refused
stream (some claims) accepted consume c =
    if accepted then run_stream c (consume (subject_of claims.user_id)) else not_upgraded

module _ (svc : Service) where
  unfoldable pub send : Option Claims → Option SendRequest → Endpoint Message
  send ctx req = with_claims ctx λ claims.
      with_body req
        λ body. reply (Service.send svc claims.org_id claims.user_id body) (json 201) send_err

  -- Without claims the handler dereferences a nil pointer: none stands for the panic.
  unfoldable pub inbox :
      Option Claims → World Data → Option (Response Sentinel (List Message)) × World Data
  inbox none w = (none, w)
  inbox (some claims) w =
      let (r, w') = reply (Service.inbox svc claims.user_id (pos 50)) (json 200) db_error w in
      (some r, w')

-- `url.Parse` is a parameter: the host of a text, or none when it does not parse or has none.
abbrev pub host_or : Option String → String → String
host_or none o = o
host_or (some h) o = h

abbrev pub hosts_of : (String → Option String) → List String → List String
hosts_of parse_host [] = []
hosts_of parse_host (s ∷ ss) =
    let rest = hosts_of parse_host ss in
    if str_eq (trim_space s) ""
    then rest
    else host_or (parse_host (trim_space s)) (trim_space s) ∷ rest

unfoldable pub origin_hosts_from_csv : (String → Option String) → String → List String
origin_hosts_from_csv parse_host csv = hosts_of parse_host (split_commas csv)
