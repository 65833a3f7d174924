-- ===== src/RanControl/Tests.antt =====
-- The theorems on a cluster that keeps one object, and on two network functions.
use mathlib.Core.Path.{subst}
use aerial_ran_platform.Base.{
  exists, sym, ap, ◌∙◌, Bool-cases, inl, inr, arith, eq_iff, ℕ, String, trim_space, ◌==◌,
  if◌then◌else◌, ◌∷◌, ◌+◌, List, Option, none, some, true, [], ◌≡◌, refl, false, ◌⊎◌, str_eq,
}
use aerial_ran_platform.Base.Int.{pos}
use aerial_ran_platform.Go.Errors.{Err, other, join, sentinel}
use aerial_ran_platform.Go.Exec.{Result, ok, err}
use aerial_ran_platform.RanControl.Gnb.{
  invalid_request, Sentinel, Value, Fields, text, object, end, field, CreateRequest, Cluster,
  nested, member, spec, resource, create, get,
}
use aerial_ran_platform.Respond.{error, error_text}
use aerial_ran_platform.RanControl.Handler.{Tests, create_gnb}
use aerial_ran_platform.RanControl.Handler.Errors.{Answers, create_gnb_outcome}
use aerial_ran_platform.RanControl.Radio.{
  NfEndpoint, HttpStatus, Service, Status, probe_all, status, parse_nf_list,
}
use aerial_ran_platform.RanControl.Radio.Report.{is_broken, Reports, Counts, status-Reports}
use aerial_ran_platform.RanControl.Gnb.View.{IsLeaf, Accepts, requested, create_shows_request}

-- What was sent at a path is still there.
abbrev Keeps : Value → Value → Type 0
Keeps a b =
    (path : List String) (x : Value)
    → IsLeaf x
    → nested path (some a) ≡ some x
    → nested path (some b) ≡ some x

nested-none : (path : List String) → nested path none ≡ none
nested-none [] = refl
nested-none (k ∷ ks) = nested-none ks

abbrev LeafAt : Option Value → Type 0
LeafAt none = Unit
LeafAt (some x) = IsLeaf x

no_leaf : {A : Type 0} (fs : Fields) (x : Value) → IsLeaf x → some (object fs) ≡ some x → A
no_leaf fs x leaf h = absurd (subst LeafAt (sym h) leaf)

found_nothing :
    {A : Type 0} (path : List String) (o : Option Value) (x : Value)
    → o ≡ none
    → nested path o ≡ some x
    → A
found_nothing path o x e h =
    let gone : none ≡ some x = sym (ap (nested path) e ∙ nested-none path) ∙ h in cc

-- A field of a new name.
added-Keeps :
    (l : String) (v : Value) (fs : Fields)
    → ((k : String) → str_eq l k ≡ true → member k fs ≡ none)
    → Keeps (object fs) (object (field l v fs))
added-Keeps l v fs new [] x leaf h = no_leaf fs x leaf h
added-Keeps l v fs new (k ∷ ks) x leaf h = elim (Bool-cases (str_eq l k)) [
  | inl e ↦ found_nothing ks (member k fs) x (new k e) h
  | inr e ↦ rw e h
]

head-Keeps :
    (l : String) (a b : Value) (fs : Fields)
    → Keeps a b
    → Keeps (object (field l a fs)) (object (field l b fs))
head-Keeps l a b fs keep [] x leaf h = no_leaf _ x leaf h
head-Keeps l a b fs keep (k ∷ ks) x leaf h = elim (Bool-cases (str_eq l k)) [
  | inl e ↦
      rw e (keep ks x leaf (sym (ap (λ c. nested ks (if c then some a else member k fs)) e) ∙ h))
  | inr e ↦ rw e (sym (ap (λ c. nested ks (if c then some a else member k fs)) e) ∙ h)
]

tail-Keeps :
    (l : String) (v : Value) (fs gs : Fields)
    → Keeps (object fs) (object gs)
    → Keeps (object (field l v fs)) (object (field l v gs))
tail-Keeps l v fs gs keep [] x leaf h = no_leaf _ x leaf h
tail-Keeps l v fs gs keep (k ∷ ks) x leaf h = elim (Bool-cases (str_eq l k)) [
  | inl e ↦ rw e (sym (ap (λ c. nested ks (if c then some v else member k fs)) e) ∙ h)
  | inr e ↦
      rw e
        (keep (k ∷ ks) x leaf (sym (ap (λ c. nested ks (if c then some v else member k fs)) e) ∙ h))
]

abbrev cell : CreateRequest
cell = record {
  name = "cell-1";
  image = "";
  gpu_count = pos 0;
  gpu_type = "A100";
  enable_rdma = true;
  bandwidth = pos 40;
  numerology = pos 0;
  band = "";
  max_ues = pos 0;
  fronthaul = "";
  security_ref = "p";
}

abbrev metadata : Fields
metadata = field "name" (text "cell-1") (field "namespace" (text "aerial") end)

abbrev identified : Fields
identified = field "uid" (text "6f1e") metadata

-- The object with the uid that the server gives.
abbrev stored : Value
stored = object (
    field "apiVersion" (text "ran.wavekube.io/v1alpha1") (
      field "kind" (text "GNodeB")
        (field "metadata" (object identified) (field "spec" (object (spec cell)) end))))

uid_is_new : (k : String) → str_eq "uid" k ≡ true → member k metadata ≡ none
uid_is_new k e = let same : "uid" ≡ k = ground (arith, eq_iff "uid" k) in rw (sym same) refl

stored-Accepts : Accepts (resource "aerial" cell) stored
unfolding resource
stored-Accepts = record {
  keeps = tail-Keeps "apiVersion" _ _ _ (
      tail-Keeps "kind" _ _ _
        (head-Keeps "metadata" _ _ _ (added-Keeps "uid" (text "6f1e") metadata uid_is_new)));
  no_status = refl;
}

abbrev found : Option Value → Result (Err Sentinel) Value
found none = err (other "not found")
found (some o) = ok o

abbrev cluster : Cluster (Option Value)
cluster = record {
  create_object = λ namespace o w. (ok stored, some stored);
  list_objects = λ namespace w. (ok [], w);
  get_object = λ namespace name w. (found w, w);
  delete_object = λ namespace name w. (ok tt, none);
}

create_shows_request_example :
    (create cluster "aerial" cell none ≡ (ok (requested "aerial" cell), some stored))
    × (get cluster "aerial" "cell-1" (some stored) ≡ (ok (requested "aerial" cell), some stored))
create_shows_request_example =
    create_shows_request cluster "aerial" cell none (some stored) stored stored refl stored-Accepts
      stored-Accepts refl refl

abbrev full : Cluster (Option Value)
full = record cluster { create_object = λ namespace o w. (err (other "quota"), w) }

abbrev tests : Tests
tests = record { is_not_found = λ e. false; is_already_exists = λ e. false }

create_gnb_outcome_example :
    ((str_eq cell.name "" ≡ true)
      × (create_gnb tests (some full) "aerial" (some cell) none ≡ (
        error 400 "bad_request"
            (error_text (join (sentinel invalid_request) (other "name required"))),
        none,
      )))
    ⊎ ((str_eq cell.name "" ≡ false)
        × Answers tests
            (full.create_object "aerial" (resource "aerial" cell) none)
            (create_gnb tests (some full) "aerial" (some cell) none))
create_gnb_outcome_example = create_gnb_outcome tests full "aerial" cell none

abbrev functions : List NfEndpoint
functions = parse_nf_list "amf=http://a:9090/metrics, ,=x,smf = http://s:9090/m?q=1"

functions_parsed :
    functions
    ≡ (record { name = "smf"; url = "http://s:9090/m?q=1" })
      ∷ (record { name = "amf"; url = "http://a:9090/metrics" })
      ∷ []
unfolding parse_nf_list trim_space
functions_parsed = refl

-- The second request is answered.
abbrev fetch : String → ℕ → Result String HttpStatus × ℕ
fetch url n =
    if n == 0
    then (err "connection refused", 1)
    else (ok (record { status_code = 200; status_text = "200 OK" }), n + 1)

abbrev radio : Service ℕ
radio = record {
  is_request = λ url. true;
  fetch = fetch;
  counter = some (λ n. (err "no reachable servers", n + 1));
  mongo = none;
  nf_endpoints = functions;
  plmn = "00101";
  clock = λ n. n;
}

status-Reports_example :
    ((exists (is_broken radio) functions ≡ true) × ((status radio 0).0 ≡ none))
    ⊎ ((exists (is_broken radio) functions ≡ false)
        × (st : Status) × ((status radio 0).0 ≡ some st)
        × Reports fetch functions 0 st.nfs
        × Counts
            (some (λ n. (err "no reachable servers", n + 1)))
            (probe_all radio functions 0).1
            (st.subscribers, st.subscribers_error))
status-Reports_example = status-Reports radio 0
