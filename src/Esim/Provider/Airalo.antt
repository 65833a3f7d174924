-- ===== src/Esim/Provider/Airalo.antt =====
-- svc-aerial-esim/internal/provider/airalo.go: the adapter of the Airalo API. The network is a
-- parameter: what it answers to a request, and the clock. Decoding JSON and floats that the API
-- sends are parameters too. The mutex makes `token` one step. The base URL is one that parses: the
-- code ignores the error of `http.NewRequestWithContext`, and panics on another.
pub mod Token
use Prim.Native.String
use aerial_ran_platform.Base.{
  ℕ, suc, ◌+◌, ◌-◌, ◌*◌, ◌/◌, String, Bool, not, ◌&&◌, Option, none, some, List, [], ◌∷◌, ◌++◌,
  str_eq, ltb, ◌==◌, decimal, if◌then◌else◌,
}
use aerial_ran_platform.Base.Int.{ℤ, pos, negsuc}
use aerial_ran_platform.Go.Errors.{Err, other}
use aerial_ran_platform.Go.Exec.{Result, ok, err, Exec, pure, fail, ◌>>=◌, ◌>>◌}
use aerial_ran_platform.Esim.Provider.{PackageOffering, OrderResult, Provider}
use aerial_ran_platform.Esim.Provider.Allowance.{parse_data_mb}

-- What a request carries: the form of a token request, the body of an order, or nothing.
pub data Payload : Type 0 where
  empty : Payload
  credentials : String → String → Payload
  order_of : String → String → Payload

pub record HttpRequest : Type 0 where
  pub method : String
  pub path : String
  pub authorization : Option String
  pub payload : Payload

pub record HttpReply : Type 0 where
  pub status : ℕ
  pub text : String

pub record TokenData : Type 0 where
  pub access_token : String
  pub expires_in : ℤ

-- A package of the catalogue, with its price in cents: `int(op.NetPriceUSD * 100)`.
pub record OperatorPackage : Type 0 where
  pub id : String
  pub title : String
  pub amount : String
  pub day : ℤ
  pub net_price_cents : ℤ

pub record CountryPackages : Type 0 where
  pub country : String
  pub operator_packages : List OperatorPackage

pub record SoldSim : Type 0 where
  pub iccid : String
  pub qr_code : String
  pub direct_apple_installation_url : String

pub record OrderData : Type 0 where
  pub id : ℤ
  pub sims : List SoldSim

-- The network's state is `N`.
pub record Network (S N : Type 0) : Type 0 where
  pub send : HttpRequest → N → Result (Err S) HttpReply × N
  pub clock : N → ℕ
  pub query_escape : String → String
  pub upper : String → String
  pub show_int : ℤ → String
  pub decode_token : String → Option TokenData
  pub decode_catalog : String → Option (List CountryPackages)
  pub decode_order : String → Option OrderData
  -- `int(resp.Data.Total - resp.Data.Remaining)`
  pub decode_usage : String → Option ℤ

pub record Airalo (N : Type 0) : Type 0 where
  pub access_token : String
  pub expires_at : ℕ
  pub network : N

abbrev pub second : ℕ
second = 1000000000

abbrev pub margin : ℕ
margin = 5 * 60 * second

-- The time `seconds` from `now`; the clock counts from the year 1.
abbrev pub later : ℕ → ℤ → ℕ
later now (pos n) = now + n * second
later now (negsuc n) = now - suc n * second

infixr 45 ◌&◌
abbrev ◌&◌ : String → String → String
s & t = String.◌++◌ s t

abbrev pub is_success : HttpReply → Bool
is_success r = r.status / 100 == 2

-- What a decoder makes of a body: `json.NewDecoder(res.Body).Decode(&t)`.
abbrev pub decoded_as : {S A : Type 0} → Option A → Result (Err S) A
decoded_as none = err (other "invalid json")
decoded_as (some a) = ok a

-- The offering of a package; one whose allowance is not understood is skipped.
abbrev pub offer : String → OperatorPackage → Option ℤ → List PackageOffering → List PackageOffering
offer region p none rest = rest
offer region p (some mb) rest =
    (record {
      id = p.id;
      label = p.title;
      region = region;
      data_mb = mb;
      validity_days = p.day;
      price_usd_cents = p.net_price_cents;
    })
    ∷ rest

abbrev pub offers_of : String → List OperatorPackage → List PackageOffering
offers_of region [] = []
offers_of region (p ∷ ps) = offer region p (parse_data_mb p.amount) (offers_of region ps)

abbrev pub all_offers : (String → String) → List CountryPackages → List PackageOffering
all_offers upper [] = []
all_offers upper (c ∷ cs) = offers_of (upper c.country) c.operator_packages ++ all_offers upper cs

module _ {S N : Type 0} (net : Network S N) (client_id client_secret : String) where
  abbrev pub token_request : HttpRequest
  token_request = record {
    method = "POST";
    path = "/v2/token";
    authorization = none;
    payload = credentials client_id client_secret;
  }

  -- The token that was granted is kept until its time is over.
  abbrev pub granted : Result (Err S) TokenData → Airalo N → Result (Err S) String × Airalo N
  granted (err e) a = (err e, a)
  granted (ok t) a = (
    ok t.access_token,
    record a {
      access_token = t.access_token;
      expires_at = later (net.clock a.network) t.expires_in;
    },
  )

  abbrev pub token_answer :
      Result (Err S) HttpReply × N → Airalo N → Result (Err S) String × Airalo N
  token_answer (err e, n) a = (err e, record a { network = n })
  token_answer (ok r, n) a =
      granted
        (if is_success r
          then decoded_as (net.decode_token r.text)
          else err (other ("airalo token " & decimal r.status & ": " & r.text)))
        (record a { network = n })

  -- A token is used again while it has more than five minutes left.
  abbrev pub is_fresh : Airalo N → Bool
  is_fresh a = not (str_eq a.access_token "") && ltb (net.clock a.network + margin) a.expires_at

  unfoldable pub token : Exec (Airalo N) (Err S) String
  token a =
      if is_fresh a
      then (ok a.access_token, a)
      else token_answer (net.send token_request a.network) a

  abbrev pub sent : Result (Err S) HttpReply × N → Airalo N → Result (Err S) HttpReply × Airalo N
  sent (r, n) a = (r, record a { network = n })

  abbrev pub send : HttpRequest → Exec (Airalo N) (Err S) HttpReply
  send q a = sent (net.send q a.network) a

  -- `do(ctx, method, path, body, &resp)`
  unfoldable pub exchange :
      {A : Type 0} → String → String → Payload → (String → Option A) → Exec (Airalo N) (Err S) A
  exchange method path payload decode = do
    tok ← token
    r ← send (record {
      method = method;
      path = path;
      authorization = some ("Bearer " & tok);
      payload = payload;
    })
    λ a. (
      (if is_success r
          then decoded_as (decode r.text)
          else err (
              other ("airalo " & method & " " & path & " -> " & decimal r.status & ": " & r.text))),
      a,
    )

  abbrev pub catalog_path : String → String
  catalog_path region =
      "/v2/packages?filter[type]=local&filter[country]="
      & net.query_escape (if str_eq region "" then "US" else region)
      & "&limit=20"

  unfoldable pub catalog : String → Exec (Airalo N) (Err S) (List PackageOffering)
  catalog region = do
    cs ← exchange "GET" (catalog_path region) empty net.decode_catalog
    pure (all_offers net.upper cs)

  abbrev pub first_sim : ℤ → List SoldSim → Exec (Airalo N) (Err S) OrderResult
  first_sim id [] = fail (other "airalo: empty sims in order response")
  first_sim id (sim ∷ sims) = pure (record {
    provider_ref = net.show_int id;
    iccid = sim.iccid;
    lpa_string = sim.qr_code;
    install_url = sim.direct_apple_installation_url;
    expires_at = none;
  })

  unfoldable pub order : String → String → Exec (Airalo N) (Err S) OrderResult
  order package_id external_ref = do
    d ← exchange "POST" "/v2/orders" (order_of package_id external_ref) net.decode_order
    first_sim d.id d.sims

  unfoldable pub usage_mb : String → Exec (Airalo N) (Err S) ℤ
  usage_mb iccid = exchange "GET" ("/v2/sims/" & iccid & "/usage") empty net.decode_usage

  unfoldable pub cancel : String → Exec (Airalo N) (Err S) (Unit {0})
  cancel ref = pure tt

  abbrev pub airalo : Provider S (Airalo N)
  airalo = record {
    name = "airalo";
    catalog = catalog;
    order = order;
    usage_mb = usage_mb;
    cancel = cancel;
  }
