-- ===== src/Esim/Provider/Mock.antt =====
-- svc-aerial-esim/internal/provider/mock.go: the provider without credentials, in memory. The
-- mutex makes each method one step. `rand.Read` and `time.Now` are parameters, by the number of
-- the reading.
pub mod Usage
use Prim.Native.Char.{Char, code, len_utf8}
use Prim.Native.String
use Prim.Native.String.{char_at, len}
use aerial_ran_platform.Base.{
  ℕ, zero, suc, ◌+◌, ◌*◌, ◌/◌, ◌%◌, ◌-◌, ◌==◌, String, Bool, not, ◌&&◌, Option, none, some, List,
  [], ◌∷◌, str_eq, ltb, leb, find, select, if◌then◌else◌,
}
use aerial_ran_platform.Base.Int.{ℤ, pos}
use aerial_ran_platform.Go.Errors.{Err, other}
use aerial_ran_platform.Go.Exec.{Result, ok, err, Exec}
use aerial_ran_platform.Esim.Provider.{PackageOffering, OrderResult, Provider}

pub record MockOrder : Type 0 where
  pub package_id : String
  pub created_at : ℕ
  pub expires_at : ℕ
  pub data_mb : ℕ
  pub usage_mb : ℕ

pub record Entry : Type 0 where
  pub key : String
  pub value : MockOrder

-- The map from references to orders, and how often the clock and the random source were read.
pub record Mock : Type 0 where
  pub readings : ℕ
  pub state : List Entry

pub record Surroundings : Type 0 where
  pub random : ℕ → Option (List ℕ)
  pub clock : ℕ → ℕ

abbrev pub has_key : String → Entry → Bool
has_key ref e = str_eq e.key ref

-- `m[ref] = o` and `delete(m, ref)`
abbrev pub drop_key : String → List Entry → List Entry
drop_key ref = select (λ e. not (has_key ref e))

abbrev pub put : String → MockOrder → List Entry → List Entry
put ref o entries = (record { key = ref; value = o }) ∷ drop_key ref entries

-- `s[k:]`, in bytes. Where it would cut a character, the whole character is dropped: what is left
-- is then equal to no text, in Go and here, since it is shorter than it should be.
abbrev pub drop_bytes : ℕ → String → String
drop_bytes k String.[] = String.[]
drop_bytes k (String.◌∷◌ c s) =
    let rest = drop_bytes (k - len_utf8 c) s in if k == 0 then String.◌∷◌ c s else rest

-- `s[:k]` of a text in ASCII.
abbrev pub first_chars : ℕ → String → String
first_chars zero s = ""
first_chars (suc k) String.[] = ""
first_chars (suc k) (String.◌∷◌ c s) = String.◌∷◌ c (first_chars k s)

unfoldable pub string_ends_with : String → String → Bool
string_ends_with s suffix =
    leb (len suffix) (len s) && str_eq (drop_bytes (len s - len suffix) s) suffix

-- `hex.EncodeToString`
abbrev pub lower_hex : List ℕ → String
lower_hex [] = ""
lower_hex (b ∷ bs) =
    String.◌∷◌ (char_at "0123456789abcdef" (b / 16 % 16))
      (String.◌∷◌ (char_at "0123456789abcdef" (b % 16)) (lower_hex bs))

infixr 45 ◌&◌
abbrev pub ◌&◌ : String → String → String
s & t = String.◌++◌ s t

abbrev sku : String → String → String → ℕ → ℕ → ℕ → PackageOffering
sku region suffix name mb days cents = record {
  id = "mock-" & region & suffix;
  label = name & " (" & region & ")";
  region = region;
  data_mb = pos mb;
  validity_days = pos days;
  price_usd_cents = pos cents;
}

abbrev pub offerings : String → List PackageOffering
offerings region =
    sku region "-1g-7d" "1 GB / 7 days" 1024 7 450
    ∷ sku region "-3g-30d" "3 GB / 30 days" 3072 30 1100
    ∷ sku region "-5g-30d" "5 GB / 30 days" 5120 30 1900
    ∷ sku region "-20g-30d" "20 GB / 30 days" 20480 30 4900
    ∷ []

-- The validity in days and the allowance of a package.
unfoldable pub terms : String → ℕ × ℕ
terms package_id =
    if string_ends_with package_id "-1g-7d"
    then (7, 1024)
    else if string_ends_with package_id "-3g-30d"
    then (30, 3072)
    else if string_ends_with package_id "-20g-30d"
    then (30, 20480)
    else (30, 5120)

abbrev pub hour : ℕ
hour = 3600000000000

abbrev pub capped : ℕ → ℕ → ℕ
capped cap n = if ltb cap n then cap else n

abbrev pub used_more : MockOrder → MockOrder
used_more o = record o { usage_mb = capped o.data_mb (o.usage_mb + o.data_mb / 10) }

abbrev pub lpa_of : String → String
lpa_of matching_id = "LPA:1$mock-smdp.aerial.local$" & matching_id

module _ {S : Type 0} where
  unfoldable pub catalog : String → Exec Mock (Err S) (List PackageOffering)
  catalog region m = (ok (offerings (if str_eq region "" then "GLOBAL" else region)), m)

  -- `rand.Read` failed, or the order is made.
  abbrev pub issue : (ℕ → ℕ) → String → Option (List ℕ) → Mock → Result (Err S) OrderResult × Mock
  issue clock package_id none m = (err (other "rand.Read"), m)
  issue clock package_id (some bytes) m =
      let matching_id = lower_hex bytes in
      let (days, mb) = terms package_id in
      let exp = clock m.readings + days * 24 * hour in
      (
        ok record {
          provider_ref = "mock-ord-" & matching_id;
          iccid = "8900000000" & first_chars 9 matching_id;
          lpa_string = lpa_of matching_id;
          install_url =
              "https://esimsetup.apple.com/esim_qrcode_provisioning?carddata=" & lpa_of matching_id;
          expires_at = some exp;
        },
        record {
          readings = suc (suc m.readings);
          state =
              put ("mock-ord-" & matching_id)
                (record {
                  package_id = package_id;
                  created_at = clock (suc m.readings);
                  expires_at = exp;
                  data_mb = mb;
                  usage_mb = 0;
                })
                m.state;
        },
      )

  unfoldable pub order : Surroundings → String → String → Exec Mock (Err S) OrderResult
  order around package_id external_ref m =
      issue around.clock package_id (around.random m.readings) m

  abbrev pub polled : String → Option Entry → Mock → Result (Err S) ℤ × Mock
  polled ref none m = (err (other ("unknown providerRef: " & ref)), m)
  polled ref (some e) m =
      let o = used_more e.value in (ok (pos o.usage_mb), record m { state = put ref o m.state })

  unfoldable pub usage_mb : String → Exec Mock (Err S) ℤ
  usage_mb ref m = polled ref (find (has_key ref) m.state) m

  unfoldable pub cancel : String → Exec Mock (Err S) (Unit {0})
  cancel ref m = (ok tt, record m { state = drop_key ref m.state })

  abbrev pub mock : Surroundings → Provider S Mock
  mock around = record {
    name = "mock";
    catalog = catalog;
    order = order around;
    usage_mb = usage_mb;
    cancel = cancel;
  }
