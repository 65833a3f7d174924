-- ===== src/RanControl/Radio.antt =====
-- svc-aerial-ran-control/internal/ranctl/ranctl.go: the status of the network functions, the
-- subscribers of the 5G core, and the list of functions of the configuration. What the functions'
-- metrics endpoints, MongoDB and the clock answer are parameters, on a state `N` of their own.
pub mod Report
use Prim.Native.Char.{Char, code}
use Prim.Native.String
use mathlib.Core.Option
use aerial_ran_platform.Base.{
  ℕ, ◌-◌, ◌/◌, String, Bool, true, false, Option, none, some, List, [], ◌∷◌, not, str_eq, ◌==◌,
  select, trim_space, split_commas, if◌then◌else◌,
}
use aerial_ran_platform.Go.Errors.{Err, other}
use aerial_ran_platform.Go.Exec.{Result, ok, err}
use aerial_ran_platform.Respond.{Response, json, error, error_text, respond_with}
use aerial_ran_platform.RanControl.Gnb.{Sentinel}

-- `NFInfo`, and an entry of the map of them.
pub record NfInfo : Type 0 where
  pub reachable : Bool
  pub metrics_url : String
  pub error : String

pub record NfStatus : Type 0 where
  pub name : String
  pub info : NfInfo

-- Without `OpenSessions`, which no code sets.
pub record Status : Type 0 where
  pub now : ℕ
  pub plmn : String
  pub nfs : List NfStatus
  pub subscribers : ℕ
  pub subscribers_error : String
  pub scrape_duration_ms : ℕ

-- A name and the address of its metrics.
pub record NfEndpoint : Type 0 where
  pub name : String
  pub url : String

-- `res.StatusCode` and `res.Status`.
pub record HttpStatus : Type 0 where
  pub status_code : ℕ
  pub status_text : String

-- Errors of `http.Client` and of the counter are their texts. `find` gives the decoded documents,
-- none for one that does not decode.
pub record Service (N : Type 0) : Type 0 where
  -- whether `http.NewRequestWithContext` takes the URL; it gives no request for one that it does not
  -- parse, and `Do` of no request panics
  pub is_request : String → Bool
  pub fetch : String → N → Result String HttpStatus × N
  pub counter : Option (N → Result String ℕ × N)
  pub mongo : Option (N → Result (Err Sentinel) (List (Option String)) × N)
  pub nf_endpoints : List NfEndpoint
  pub plmn : String
  pub clock : N → ℕ

abbrev pub info_of : String → Result String HttpStatus → NfInfo
info_of url (err e) = record { reachable = false; metrics_url = url; error = e }
info_of url (ok r) =
    if r.status_code == 200
    then record { reachable = true; metrics_url = url; error = "" }
    else record { reachable = false; metrics_url = url; error = r.status_text }

-- What the count leaves of the two fields.
abbrev pub counted : Result String ℕ → ℕ × String
counted (err e) = (0, e)
counted (ok n) = (n, "")

abbrev pub no_imsi : Option String → List String → List String
no_imsi none rest = rest
no_imsi (some imsi) rest = imsi ∷ rest

abbrev pub imsis : List (Option String) → List String
imsis [] = []
imsis (d ∷ ds) = no_imsi d (imsis ds)

abbrev pub listed :
    {N : Type 0}
    → Result (Err Sentinel) (List (Option String)) × N
    → Result (Err Sentinel) (List String) × N
listed (err e, n) = (err e, n)
listed (ok ds, n) = (ok (imsis ds), n)

module _ {N : Type 0} (svc : Service N) where
  abbrev pub joined : NfStatus → Option (List NfStatus) → Option (List NfStatus)
  joined s none = none
  joined s (some ss) = some (s ∷ ss)

  -- The loop over the endpoints; Go takes a map's entries in any order. None is a panic, which
  -- ends it.
  abbrev pub probe_all : List NfEndpoint → N → Option (List NfStatus) × N
  probe_all [] n = (some [], n)
  probe_all (e ∷ es) n =
      let (r, n') = svc.fetch e.url n in
      let (rest, n'') = probe_all es n' in
      if svc.is_request e.url
      then (joined (record { name = e.name; info = info_of e.url r }) rest, n'')
      else (none, n)

  abbrev pub count_from : Option (N → Result String ℕ × N) → N → (ℕ × String) × N
  count_from none n = ((0, ""), n)
  count_from (some count) n = let (r, n') = count n in (counted r, n')

  abbrev pub summed : N → Option (List NfStatus) × N → Option Status × N
  summed n (none, n1) = (none, n1)
  summed n (some nfs, n1) =
      let ((subscribers, failure), n2) = count_from svc.counter n1 in
      (
        some (record {
          now = svc.clock n;
          plmn = svc.plmn;
          nfs = nfs;
          subscribers = subscribers;
          subscribers_error = failure;
          scrape_duration_ms = (svc.clock n2 - svc.clock n) / 1000000;
        }),
        n2,
      )

  -- None is a panic.
  unfoldable pub status : N → Option Status × N
  status n = summed n (probe_all svc.nf_endpoints n)

  abbrev pub subscribers_from :
      Option (N → Result (Err Sentinel) (List (Option String)) × N)
      → N
      → Result (Err Sentinel) (List String) × N
  subscribers_from none n = (err (other "mongo not configured"), n)
  subscribers_from (some find) n = listed (find n)

  unfoldable pub subscribers : N → Result (Err Sentinel) (List String) × N
  subscribers n = subscribers_from svc.mongo n

  -- `Status` returns no error; its panic is that of the handler.
  unfoldable pub status_handler : N → Option (Response Sentinel Status) × N
  status_handler n = let (st, n') = status n in (Option.map (json 200) st, n')

  unfoldable pub subs_handler : N → Response Sentinel (List String) × N
  subs_handler n =
      let (r, n') = subscribers n in
      (respond_with r (json 200) (λ e. error 502 "mongo_error" (error_text e)), n')

-- `strings.IndexByte(pair, '=')`: what stands before the first '=', and behind it.
abbrev pub grown : Char → Option (String × String) → Option (String × String)
grown c none = none
grown c (some (k, v)) = some (String.◌∷◌ c k, v)

abbrev pub cut : String → Option (String × String)
cut String.[] = none
cut (String.◌∷◌ c s) = let rest = cut s in if code c == 61 then some ("", s) else grown c rest

abbrev pub has_name : String → NfEndpoint → Bool
has_name k e = str_eq e.name k

-- `out[k] = v`
abbrev pub put : String → String → List NfEndpoint → List NfEndpoint
put k v es = (record { name = k; url = v }) ∷ select (λ e. not (has_name k e)) es

abbrev pub add_pair : Option (String × String) → List NfEndpoint → List NfEndpoint
add_pair none out = out
add_pair (some (k, v)) out = if str_eq k "" then out else put (trim_space k) (trim_space v) out

abbrev pub add_pairs : List String → List NfEndpoint → List NfEndpoint
add_pairs [] out = out
add_pairs (p ∷ ps) out =
    add_pairs ps (if str_eq (trim_space p) "" then out else add_pair (cut (trim_space p)) out)

unfoldable pub parse_nf_list : String → List NfEndpoint
parse_nf_list csv = add_pairs (split_commas csv) []
