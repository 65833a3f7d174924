-- ===== src/Messaging/Tests.antt =====
-- The theorems on svc-aerial-messaging at concrete inputs: two users of one organisation.
use aerial_ran_platform.Base.{
  ℕ, String, false, Option, none, some, List, [], ◌∷◌, map, ◌≡◌, ◌≢◌, refl, All, arith, eq_iff,
  trim_space,
}
use aerial_ran_platform.Base.Int.{pos}
use aerial_ran_platform.Go.Exec.{Leads}
use aerial_ran_platform.Go.Postgres.{World, Fault, timed_out}
use aerial_ran_platform.Go.Postgres.Sample.{sample}
use aerial_ran_platform.Messaging.Model.{Message, SendRequest, MessageRow, Published, Data}
use aerial_ran_platform.Messaging.Service.{Service, send, inbox, scan, subject_of, new_row}
use aerial_ran_platform.Messaging.Service.Outcomes.{Stored, MaybePublished, send_outcome}
use aerial_ran_platform.Messaging.Service.Inbox.{Shows, inbox_outcome}
use aerial_ran_platform.Messaging.Service.Requests.{
  Sending, serve_all, streams_are_private, other_spelling_is_not_streamed,
}
use aerial_ran_platform.Messaging.Stream.{Conditions, pump, feed, opened}
use aerial_ran_platform.Messaging.Stream.Delivery.{published_to, stream_delivers}
use aerial_ran_platform.Messaging.Handler.{origin_hosts_from_csv}

abbrev no_fault : ℕ → Option Fault
no_fault n = none

-- With the faults of JetStream.
abbrev service : (ℕ → Option Fault) → Service
service js = record { pool = sample no_fault; js = js }

abbrev row : ℕ → ℕ → ℕ → MessageRow
row id to at_time = record {
  id = id;
  org_id = 1;
  from_user_id = 2;
  to_user_id = to;
  body = "hi";
  created_at = at_time;
}

abbrev message : String → Message
message to = record {
  id = "11";
  org_id = "11";
  from_user = "111";
  to_user = to;
  body = "hi";
  created_at = 1;
}

abbrev published : String → Published
published to = record { subject = subject_of to; payload = message to }

abbrev start : World Data
start = record {
  tick = 0;
  db = record {
    messages = row 1 2 10 ∷ row 2 3 20 ∷ row 3 2 30 ∷ [];
    log = published "111" ∷ published "1111" ∷ [];
  };
}

abbrev greeting : SendRequest
greeting = record { to_user_id = "111"; body = "hello" }

send_outcome_example :
    Leads
      (λ m w'.
        Stored (service (λ n. some timed_out)) "11" "1111" greeting m start.db w'.db
        × MaybePublished (service (λ n. some timed_out)) "11" "1111" greeting 1 m start.db w'.db)
      (λ e w'. w'.db ≡ start.db)
      (send (service (λ n. some timed_out)) "11" "1111" greeting)
      start
send_outcome_example = send_outcome (service (λ n. some timed_out)) "11" "1111" greeting start

inbox_outcome_example :
    Leads
      (λ ms w'.
        (rows : List MessageRow) × (ms ≡ map (scan (service no_fault)) rows)
        × Shows (service no_fault) "111" (pos 1) rows start.db
        × (w'.db ≡ start.db))
      (λ e w'. w'.db ≡ start.db)
      (inbox (service no_fault) "111" (pos 1))
      start
inbox_outcome_example = inbox_outcome (service no_fault) "111" (pos 1) start

abbrev calm : Conditions
calm = record { done = λ k. false; write_fails = λ k. false }

stream_delivers_example :
    (pump calm 0 (feed "111" start.db.log) opened).written ≡ published_to "111" start.db.log
stream_delivers_example = stream_delivers calm "111" start.db.log (λ k. (refl, refl))

abbrev sendings : List Sending
sendings = record { org_id = "11"; from_user = "1111"; request = greeting } ∷ []

streams_are_private_example :
    All
      (λ m. m.to_user ≡ "111")
      (published_to "111" (serve_all (service no_fault) sendings start).db.log)
streams_are_private_example =
    streams_are_private (service no_fault) sendings start "111"
      (record { addressed = refl }, (record { addressed = refl }, tt))

-- The sample server reads any text of three characters as the user that it prints "111".
abbrev spelled : SendRequest
spelled = record { to_user_id = "aaa"; body = "hello" }

other_name : ◌≢◌ {A = String} "111" "aaa"
other_name e = ground (arith, eq_iff "111" "aaa")

other_spelling_is_not_streamed_example :
    ((send (service no_fault) "11" "1111" spelled start).1.db.messages
      ≡ new_row (service no_fault) "hello" 1 3 2 0 ∷ start.db.messages)
    × (published_to "111" (send (service no_fault) "11" "1111" spelled start).1.db.log
        ≡ published_to "111" start.db.log)
other_spelling_is_not_streamed_example =
    other_spelling_is_not_streamed (service no_fault) "11" "1111" spelled 1 3 2 start refl refl refl
      refl refl refl refl other_name refl

-- A scheme is stripped where the parser finds a host; blanks and empty entries are dropped.
origin_hosts : origin_hosts_from_csv (λ s. none) " a:3000,, b ," ≡ "a:3000" ∷ "b" ∷ []
unfolding origin_hosts_from_csv trim_space
origin_hosts = refl
