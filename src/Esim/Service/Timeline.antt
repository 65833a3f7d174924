-- ===== src/Esim/Service/Timeline.antt =====
-- What the steps of the table keep of an eSIM.
use aerial_ran_platform.Base.{
  ℕ, String, true, false, Option, some, List, [], ◌∷◌, ◌≡◌, ◌≢◌, refl, find, exists, update, sym,
  ap, ◌∙◌, arith,
}
use mathlib.Core.Option.{some-injective}
use native.Mathlib.Decide.{ℕ_discrete}
use aerial_ran_platform.Base.Int.{ℤ}
use aerial_ran_platform.Go.Postgres.{Postgres}
use aerial_ran_platform.Esim.Model.{EsimRow}
use aerial_ran_platform.Esim.Repository.{has_id, usage_set, status_set, dated}
use aerial_ran_platform.Esim.Service.Lifecycle.{Step, idle, ordered, metered, activated, cancelled}

-- `r'` is the eSIM `r` at a later time: its owner, what was bought and
-- what the provider gave stay, and so does the first activation.
pub record Continues (r r' : EsimRow) : Type 0 where
  pub id : r'.id ≡ r.id
  pub org : r'.org_id ≡ r.org_id
  pub provider_ref : r'.provider_ref ≡ r.provider_ref
  pub iccid : r'.iccid ≡ r.iccid
  pub lpa_string : r'.lpa_string ≡ r.lpa_string
  pub data_mb : r'.data_mb ≡ r.data_mb
  pub owner_user_id : r'.owner_user_id ≡ r.owner_user_id
  pub provider : r'.provider ≡ r.provider
  pub package_id : r'.package_id ≡ r.package_id
  pub package_label : r'.package_label ≡ r.package_label
  pub validity_days : r'.validity_days ≡ r.validity_days
  pub qr_png_base64 : r'.qr_png_base64 ≡ r.qr_png_base64
  pub install_url : r'.install_url ≡ r.install_url
  pub expires_at : r'.expires_at ≡ r.expires_at
  pub created_at : r'.created_at ≡ r.created_at
  pub activation : (a : ℕ) → r.activated_at ≡ some a → r'.activated_at ≡ some a

pub Continues-refl : (r : EsimRow) → Continues r r
Continues-refl r = record {
  id = refl;
  org = refl;
  provider_ref = refl;
  iccid = refl;
  lpa_string = refl;
  data_mb = refl;
  owner_user_id = refl;
  provider = refl;
  package_id = refl;
  package_label = refl;
  validity_days = refl;
  qr_png_base64 = refl;
  install_url = refl;
  expires_at = refl;
  created_at = refl;
  activation = λ a h. h;
}

pub Continues-trans : {a b c : EsimRow} → Continues a b → Continues b c → Continues a c
Continues-trans p q = record {
  id = q.id ∙ p.id;
  org = q.org ∙ p.org;
  provider_ref = q.provider_ref ∙ p.provider_ref;
  iccid = q.iccid ∙ p.iccid;
  lpa_string = q.lpa_string ∙ p.lpa_string;
  data_mb = q.data_mb ∙ p.data_mb;
  owner_user_id = q.owner_user_id ∙ p.owner_user_id;
  provider = q.provider ∙ p.provider;
  package_id = q.package_id ∙ p.package_id;
  package_label = q.package_label ∙ p.package_label;
  validity_days = q.validity_days ∙ p.validity_days;
  qr_png_base64 = q.qr_png_base64 ∙ p.qr_png_base64;
  install_url = q.install_url ∙ p.install_url;
  expires_at = q.expires_at ∙ p.expires_at;
  created_at = q.created_at ∙ p.created_at;
  activation = λ a h. q.activation a (p.activation a h);
}

dated_once : (status : String) (now a : ℕ) (o : Option ℕ) → o ≡ some a → dated status now o ≡ some a
dated_once status now a o h = rw h refl

usage_set-Continues : (usage : ℤ) (now : ℕ) (r : EsimRow) → Continues r (usage_set usage now r)
usage_set-Continues usage now r = record {
  id = refl;
  org = refl;
  provider_ref = refl;
  iccid = refl;
  lpa_string = refl;
  data_mb = refl;
  owner_user_id = refl;
  provider = refl;
  package_id = refl;
  package_label = refl;
  validity_days = refl;
  qr_png_base64 = refl;
  install_url = refl;
  expires_at = refl;
  created_at = refl;
  activation = λ a h. h;
}

status_set-Continues :
    (status : String) (now : ℕ) (r : EsimRow) → Continues r (status_set status now r)
status_set-Continues status now r = record {
  id = refl;
  org = refl;
  provider_ref = refl;
  iccid = refl;
  lpa_string = refl;
  data_mb = refl;
  owner_user_id = refl;
  provider = refl;
  package_id = refl;
  package_label = refl;
  validity_days = refl;
  qr_png_base64 = refl;
  install_url = refl;
  expires_at = refl;
  created_at = refl;
  activation = λ a h. dated_once status now a r.activated_at h;
}

find-exists :
    (k : ℕ) (t : List EsimRow) {r : EsimRow}
    → find (has_id k) t ≡ some r
    → exists (has_id k) t ≡ true
find-exists k [] h = cc
find-exists k (x ∷ xs) {r} h = ground (arith, find-exists k xs {r = r})

-- A change of one row leaves the others as they are.
find-update_ne :
    (u k : ℕ) (f : EsimRow → EsimRow) (rs : List EsimRow)
    → ((r : EsimRow) → (f r).id ≡ r.id)
    → u ≢ k
    → find (has_id k) (update (has_id u) f rs) ≡ find (has_id k) rs
find-update_ne u k f [] same ne = refl
find-update_ne u k f (r ∷ rs) same ne = ground (arith, same r, find-update_ne u k f rs same ne)

pub find-update_self :
    (u : ℕ) (f : EsimRow → EsimRow) (rs : List EsimRow) {r : EsimRow}
    → ((x : EsimRow) → (f x).id ≡ x.id)
    → find (has_id u) rs ≡ some r
    → find (has_id u) (update (has_id u) f rs) ≡ some (f r)
find-update_self u f [] same h = cc
find-update_self u f (x ∷ rs) {r} same h =
    ground (arith, same x, find-update_self u f rs {r = r} same)

-- The eSIM `r` of identifier `k` is still in the table.
abbrev pub Continued : ℕ → EsimRow → List EsimRow → Type 0
Continued k r t = (r' : EsimRow) × (find (has_id k) t ≡ some r') × Continues r r'

changed-Continued :
    (u k : ℕ) (f : EsimRow → EsimRow) (t t' : List EsimRow) (r : EsimRow)
    → ((x : EsimRow) → Continues x (f x))
    → t' ≡ update (has_id u) f t
    → find (has_id k) t ≡ some r
    → Continued k r t'
changed-Continued u k f t t' r c e found = elim (ℕ_discrete u k) [
  | yes same ↦ (
    f r,
    ap (find (has_id k)) e
        ∙ ap (λ (n : ℕ). find (has_id k) (update (has_id n) f t)) same
        ∙ find-update_self k f t (λ x. (c x).id) found,
    c r,
  )
  | no ne ↦ (
    r,
    ap (find (has_id k)) e ∙ find-update_ne u k f t (λ x. (c x).id) ne ∙ found,
    Continues-refl r,
  )
]

-- A new row hides none: its identifier was free.
find-fresh :
    (row : EsimRow) (k : ℕ) (t : List EsimRow) {r : EsimRow}
    → exists (has_id row.id) t ≡ false
    → find (has_id k) t ≡ some r
    → find (has_id k) (row ∷ t) ≡ some r
find-fresh row k t {r} free found = ground (arith, find-exists k t {r = r} found)

module _ (server : Postgres) (org_id : String) (t t' : List EsimRow) where
  -- Whatever an organisation does, an eSIM that is in the table stays there: with its identifier,
  -- its organisation and what was bought, and with the time of its first activation once it has
  -- one.
  pub step-Continued :
      (k : ℕ) (r : EsimRow)
      → Step server org_id t t'
      → find (has_id k) t ≡ some r
      → Continued k r t'
  step-Continued k r (idle e) found = (r, ap (find (has_id k)) e ∙ found, Continues-refl r)
  step-Continued k r (ordered row free org first undated unused e) found =
      (r, ap (find (has_id k)) e ∙ find-fresh row k t free found, Continues-refl r)
  step-Continued k r (metered row key usage now at_key mine e) found =
      changed-Continued key k _ t t' r (usage_set-Continues usage now) e found
  step-Continued k r (activated row key now at_key mine e) found =
      changed-Continued key k _ t t' r (status_set-Continues "active" now) e found
  step-Continued k r (cancelled row key now at_key mine e) found =
      changed-Continued key k _ t t' r (status_set-Continues "cancelled" now) e found

  others :
      (u k : ℕ) (f : EsimRow → EsimRow) (row r : EsimRow)
      → ((x : EsimRow) → (f x).id ≡ x.id)
      → find (has_id u) t ≡ some row
      → server.show_uuid row.org_id ≡ org_id
      → t' ≡ update (has_id u) f t
      → find (has_id k) t ≡ some r
      → server.show_uuid r.org_id ≢ org_id
      → find (has_id k) t' ≡ some r
  others u k f row r same at_key mine e found other = elim (ℕ_discrete u k) [
    | yes p ↦ absurd (
        other (
          ap (λ (x : EsimRow). server.show_uuid x.org_id)
            (some-injective _ _ (sym found ∙ ap (λ (n : ℕ). find (has_id n) t) (sym p) ∙ at_key))
          ∙ mine))
    | no ne ↦ ap (find (has_id k)) e ∙ find-update_ne u k f t same ne ∙ found
  ]

  -- And the rows of other organisations stand as they stood.
  pub step-others :
      (k : ℕ) (r : EsimRow)
      → Step server org_id t t'
      → find (has_id k) t ≡ some r
      → server.show_uuid r.org_id ≢ org_id
      → find (has_id k) t' ≡ some r
  step-others k r (idle e) found other = ap (find (has_id k)) e ∙ found
  step-others k r (ordered row free org first undated unused e) found other =
      ap (find (has_id k)) e ∙ find-fresh row k t free found
  step-others k r (metered row key usage now at_key mine e) found other =
      others key k _ row r (λ x. refl) at_key mine e found other
  step-others k r (activated row key now at_key mine e) found other =
      others key k _ row r (λ x. refl) at_key mine e found other
  step-others k r (cancelled row key now at_key mine e) found other =
      others key k _ row r (λ x. refl) at_key mine e found other
