-- ===== src/Billing/Tests.antt =====
-- The theorem on svc-aerial-billing at a concrete input: three events, one of them of no user.
use aerial_ran_platform.Base.{
  ◌≡◌, ◌⊎◌, inl, inr, ℕ, String, Option, none, some, List, [], ◌∷◌, refl, str_eq, ◌==◌,
  if◌then◌else◌,
}
use aerial_ran_platform.Base.Int.{pos, negsuc, is_zero}
use aerial_ran_platform.Go.Postgres.{World, Fault, timed_out}
use aerial_ran_platform.Go.Postgres.Sample.{sample, parse_unary}
use aerial_ran_platform.Billing.Model.{Moment, UsageEvent, Data}
use aerial_ran_platform.Billing.Service.{Service, zero_uuid}
use aerial_ran_platform.Billing.Service.Ledger.{IsLedger}
use aerial_ran_platform.Billing.Service.Ingestion.{
  Request, ingesting, asking_mine, serve_all, serve_all-IsLedger,
}

-- The second commit is lost.
abbrev faults : ℕ → Option Fault
faults n = if n == 7 then some timed_out else none

abbrev service : Service
service = record {
  repo = record (sample faults) {
    parse_uuid = λ s. if str_eq s zero_uuid then some 0 else parse_unary s;
  };
  month_of = λ at. if is_zero at.offset then 3 else 4;
  clock = λ n. record { instant = 50; offset = pos 0 };
}

abbrev used : Option String → UsageEvent
used user = record {
  org_id = "11";
  user_id = user;
  source = "esim";
  resource_id = none;
  amounts = record { data_mb = pos 5; minutes = pos 0; sms_count = pos 1; cents = negsuc 2 };
  occurred_at = none;
}

abbrev start : World Data
start = record { tick = 0; db = record { events = []; rollups = [] } }

abbrev requests : List Request
requests =
    ingesting
      (record (used none) { occurred_at = some (record { instant = 50; offset = negsuc 59 }) })
    ∷ ingesting (used (some "111"))
    ∷ ingesting (used none)
    ∷ asking_mine "11" "111"
    ∷ []

-- The server's zone, and that of the first event.
abbrev InZone : Moment → Type 0
InZone at = (at.offset ≡ pos 0) ⊎ (at.offset ≡ negsuc 59)

serve_all-IsLedger_example : IsLedger InZone service.month_of (serve_all service requests start).db
serve_all-IsLedger_example =
    serve_all-IsLedger service refl InZone (λ n. inl refl) requests start
      (inr refl, (tt, (tt, (tt, tt)))) ([], refl, (λ o u m. refl), tt)
