-- ===== src/Esim/Tests.antt =====
-- The theorems on svc-aerial-esim at concrete inputs: two tenants, the mock provider.
use aerial_ran_platform.Base.{
  ℕ, ◌+◌, ◌*◌, String, Option, none, some, List, [], ◌∷◌, ◌≡◌, ◌≢◌, ◌⊎◌, refl, All, arith, eq_iff,
  trim_space, find,
}
use aerial_ran_platform.Base.Int.{pos}
use aerial_ran_platform.Go.Errors.{other}
use aerial_ran_platform.Go.Exec.{Leads, ok, err}
use aerial_ran_platform.Go.Postgres.{World, Fault}
use aerial_ran_platform.Go.Postgres.Sample.{sample}
use aerial_ran_platform.Jwt.{Claims}
use aerial_ran_platform.Esim.Model.{Sentinel, EsimRow, PackageRow, Data, OrderRequest}
use aerial_ran_platform.Esim.Provider.{Provider}
use aerial_ran_platform.Esim.Provider.Mock.{
  Mock, MockOrder, Surroundings, mock, offerings, catalog, order, usage_mb,
}
use aerial_ran_platform.Esim.Provider.Mock.Usage.{
  WithinAllowance, Reach, new, next, ordered, polled_usage, polls, reachable-WithinAllowance,
  polled_out,
}
use aerial_ran_platform.Esim.Provider.Allowance.{parse_data_mb, nearest, data_unlimited}
use aerial_ran_platform.Esim.Provider.Allowance.Reading.{gb, printed, parse-printed}
use aerial_ran_platform.Esim.Provider.Airalo.{Network, Airalo, token, second}
use aerial_ran_platform.Esim.Provider.Airalo.Token.{Reused, Renewed, SameToken, token_outcome}
use aerial_ran_platform.Esim.Repository.{has_id}
use aerial_ran_platform.Esim.Service.{Service, package_of, refresh_catalog}
use aerial_ran_platform.Esim.Service
use aerial_ran_platform.Esim.Service.Lifecycle.{Step}
use aerial_ran_platform.Esim.Service.Timeline.{Continued}
use aerial_ran_platform.Esim.Service.Requests.{
  Request, ordering, metering, activating, cancelling, serve, serve_all, serve_refines,
  serve_all-Continued, serve_all_foreign,
}
use aerial_ran_platform.Esim.Service.Ordering.{Placed, NothingStored, order_outcome}
use aerial_ran_platform.Esim.Service.Catalog.{Sells, ShowsAll, Offers, refresh_catalog-Lists}
use aerial_ran_platform.Esim.Handler.Isolation.{
  ProviderFailed, IsForeign, ordering, answer, Refuses, provider_failure_is_reported,
}

abbrev around : Surroundings
around = record { random = λ n. some (1 ∷ 2 ∷ 3 ∷ 4 ∷ 5 ∷ 6 ∷ 7 ∷ 171 ∷ []); clock = λ n. 1000 + n }

abbrev no_fault : ℕ → Option Fault
no_fault n = none

abbrev service : Service Mock
service = record {
  repo = sample no_fault;
  prov = mock around;
  now = λ n. 3000 + n;
  qr_png = λ s. some "iVBORw0";
}

abbrev package_row : PackageRow
package_row = record {
  id = "mock-CO-1g-7d";
  provider = "mock";
  label = "1 GB / 7 days (CO)";
  region = some "CO";
  data_mb = pos 1024;
  validity_days = pos 7;
  price_usd_cents = pos 450;
  fetched_at = 1;
}

abbrev esim_row : ℕ → ℕ → EsimRow
esim_row id org_id = record {
  id = id;
  org_id = org_id;
  owner_user_id = none;
  provider = "mock";
  provider_ref = some "mock-ord-1";
  iccid = some "8900";
  package_id = some "mock-CO-1g-7d";
  package_label = some "1 GB";
  data_mb = some (pos 1024);
  validity_days = some (pos 7);
  lpa_string = some "LPA";
  qr_png_base64 = some "";
  install_url = some "";
  status = "active";
  activated_at = some 5;
  expires_at = none;
  last_usage_mb = pos 0;
  created_at = 1;
  updated_at = 1;
}

abbrev new_order : MockOrder
new_order = record {
  package_id = "mock-CO-1g-7d";
  created_at = 1;
  expires_at = 2;
  data_mb = 1024;
  usage_mb = 0;
}

abbrev sold : Mock
sold = record { readings = 0; state = record { key = "mock-ord-1"; value = new_order } ∷ [] }

-- The eSIM 7 is of organisation 1, the eSIM 8 of organisation 2.
abbrev start : World (Data Mock)
start = record {
  tick = 0;
  db = record {
    packages = package_row ∷ [];
    esims = esim_row 7 1 ∷ esim_row 8 2 ∷ [];
    vendor = sold;
  };
}

abbrev buy : OrderRequest
buy = record { owner_user_id = none; package_id = "mock-CO-1g-7d" }

-- Organisation 1, whose identifier is printed "11", and its eSIM 7.
abbrev requests : List Request
requests =
    ordering "11" buy
    ∷ metering "11" "11111111"
    ∷ cancelling "11" "11111111"
    ∷ activating "11" "11111111"
    ∷ []

serve_refines_example :
    Step service.repo "11" start.db.esims (serve service (metering "11" "11111111") start).db.esims
serve_refines_example = serve_refines service (metering "11" "11111111") start

serve_all-Continued_example : Continued 7 (esim_row 7 1) (serve_all service requests start).db.esims
serve_all-Continued_example = serve_all-Continued service requests start 7 (esim_row 7 1) refl

other_name : ◌≢◌ {A = String} "111" "11"
other_name e = ground (arith, eq_iff "111" "11")

serve_all_foreign_example :
    find (has_id 8) (serve_all service requests start).db.esims ≡ some (esim_row 8 2)
serve_all_foreign_example =
    serve_all_foreign service requests start 8 (esim_row 8 2)
      (other_name, (other_name, (other_name, (other_name, tt)))) refl

order_outcome_example :
    Leads
      (λ made w'. Placed service "11" buy made start.db w'.db)
      (λ e w'. NothingStored service "11" buy start.db w'.db)
      (Service.order service "11" buy)
      start
order_outcome_example = order_outcome service "11" buy start

offers : Offers service "CO" sold sold (offerings "CO")
unfolding catalog
offers = record {
  returned = refl;
  distinct = ((refl, (refl, (refl, tt))), ((refl, (refl, tt)), ((refl, tt), (tt, tt))));
}

refresh_catalog-Lists_example :
    Leads
      (λ ks w'.
        (now : ℕ) × ShowsAll service.prov.name (offerings "CO") ks
        × All (λ offer. Sells offer now w'.db.packages) (offerings "CO"))
      (λ e w'. w'.db.packages ≡ start.db.packages)
      (refresh_catalog service "CO")
      start
refresh_catalog-Lists_example =
    refresh_catalog-Lists service "CO" (offerings "CO") sold start offers

-- A provider that refuses everything and counts the calls.
abbrev refusing : Provider Sentinel ℕ
refusing = record {
  name = "mock";
  catalog = λ region n. (err (other "down"), 1 + n);
  order = λ id ref n. (err (other "no stock"), 1 + n);
  usage_mb = λ ref n. (err (other "down"), 1 + n);
  cancel = λ ref n. (err (other "down"), 1 + n);
}

abbrev stranded : Service ℕ
stranded = record { repo = sample no_fault; prov = refusing; now = λ n. n; qr_png = λ s. none }

abbrev stranded_start : World (Data ℕ)
stranded_start = record {
  tick = 0;
  db = record { packages = start.db.packages; esims = start.db.esims; vendor = 0 };
}

abbrev tenant : Claims
tenant = record {
  user_id = "1";
  org_id = "11";
  email = "a@b";
  role = "user";
  device_id = "";
  scopes = [];
}

own_error : (text : String) → IsForeign (other text)
own_error text = record { not_esim = refl; not_package = refl; not_input = refl }

selling_refused : Refuses stranded tenant (ordering buy) stranded_start (other "no stock") 1
unfolding trim_space
selling_refused = (package_row, refl, refl, refl)

provider_failure_is_reported_example :
    ProviderFailed
      (other "no stock")
      1
      stranded_start
      (answer stranded tenant (ordering buy) stranded_start)
provider_failure_is_reported_example =
    provider_failure_is_reported stranded tenant (ordering buy) (other "no stock") 1 stranded_start
      refl (own_error "no stock") selling_refused

abbrev polled_twice : Mock
polled_twice =
    (usage_mb {S = Unit {0}} "mock-ord-0102030405060708"
      (order {S = Unit {0}} around "mock-CO-1g-7d" "aerial-11"
        (record { readings = 0; state = [] })).1).1

polled_twice-Reach : Reach around polled_twice
polled_twice-Reach =
    next (next new (ordered "mock-CO-1g-7d" "aerial-11")) (polled_usage "mock-ord-0102030405060708")

reachable-WithinAllowance_example : WithinAllowance polled_twice
reachable-WithinAllowance_example = reachable-WithinAllowance around polled_twice-Reach

polled_out_example :
    (usage_mb {S = Sentinel} "mock-ord-1" (polls (19 + 3) "mock-ord-1" sold)).0 ≡ ok (pos 1024)
polled_out_example = polled_out 3 "mock-ord-1" new_order sold refl refl (omega arith)

parse-printed_example : parse_data_mb (printed 5 1 gb) ≡ some (pos 5120)
parse-printed_example = parse-printed 5 1 gb (omega arith) (omega arith)

-- Fractions, other cases of letters, and texts that are no allowance.
parse_fraction : parse_data_mb "1.5 GB" ≡ some (pos 1536)
unfolding parse_data_mb nearest trim_space
parse_fraction = refl

parse_rounded_down : parse_data_mb " 4.35tb" ≡ some (pos 4561305)
unfolding parse_data_mb nearest trim_space
parse_rounded_down = refl

parse_unlimited : parse_data_mb "unLimited" ≡ some data_unlimited
unfolding parse_data_mb trim_space
parse_unlimited = refl

parse_unknown_unit : parse_data_mb "5 Gigabytes" ≡ none
unfolding parse_data_mb trim_space
parse_unknown_unit = refl

-- A network that grants the token "t" for an hour to every request and counts the requests.
abbrev network : Network Sentinel ℕ
network = record {
  send = λ q n. (ok (record { status = 200; text = "t" }), 1 + n);
  clock = λ n. 500 * second + n;
  query_escape = λ s. s;
  upper = λ s. s;
  show_int = λ i. "1";
  decode_token = λ s. some (record { access_token = s; expires_in = pos 3600 });
  decode_catalog = λ s. none;
  decode_order = λ s. none;
  decode_usage = λ s. none;
}

-- The token in store has four minutes left.
abbrev almost_over : Airalo ℕ
almost_over = record { access_token = "old"; expires_at = 740 * second; network = 0 }

token_outcome_example :
    Leads
      (λ t a'.
        Reused network "id" "secret" almost_over t a'
        ⊎ Renewed network "id" "secret" almost_over t a')
      (λ e a'. SameToken network "id" "secret" almost_over a')
      (token network "id" "secret")
      almost_over
token_outcome_example = token_outcome network "id" "secret" almost_over
