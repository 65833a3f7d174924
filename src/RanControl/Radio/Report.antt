-- ===== src/RanControl/Radio/Report.antt =====
-- What the status says of the network functions and of the count of the subscribers.
use aerial_ran_platform.Base.{
  Bool, exists, not, ap, ℕ, String, true, false, Option, none, some, List, [], ◌∷◌, ◌≡◌, ◌⊎◌, inl,
  inr, refl, ◌==◌, arith, Bool-cases,
}
use aerial_ran_platform.Go.Exec.{Result, ok, err}
use aerial_ran_platform.RanControl.Radio.{
  NfStatus, NfEndpoint, HttpStatus, Service, info_of, counted, probe_all, summed, Status, status,
  count_from,
}

-- What a report says of an endpoint, by the answer to the request for its metrics: reachable after
-- an answer of 200 and only then, and otherwise with the status line or the error.
abbrev pub Tells : NfEndpoint → Result String HttpStatus → NfStatus → Type 0
Tells e answer s =
    (s.name ≡ e.name)
    × (s.info.metrics_url ≡ e.url)
    × (((r : HttpStatus) × (answer ≡ ok r)
          × (r.status_code ≡ 200)
          × (s.info.reachable ≡ true)
          × (s.info.error ≡ ""))
        ⊎ ((r : HttpStatus) × (answer ≡ ok r)
            × ((r.status_code ≡ 200) → ⊥)
            × (s.info.reachable ≡ false)
            × (s.info.error ≡ r.status_text))
        ⊎ ((x : String) × (answer ≡ err x) × (s.info.reachable ≡ false) × (s.info.error ≡ x)))

-- One report for each endpoint, of the answer in the state that the requests before it left.
abbrev pub Reports :
    {N : Type 0}
    → (String → N → Result String HttpStatus × N)
    → List NfEndpoint
    → N
    → List NfStatus
    → Type 0
Reports fetch [] n [] = Unit
Reports fetch [] n (s ∷ ss) = ⊥
Reports fetch (e ∷ es) n [] = ⊥
Reports fetch (e ∷ es) n (s ∷ ss) =
    Tells e (fetch e.url n).0 s × Reports fetch es (fetch e.url n).1 ss

-- What the fields of a status say of the count: a failure is told by its text, that there is no
-- counter is not told.
abbrev pub Counts : {N : Type 0} → Option (N → Result String ℕ × N) → N → ℕ × String → Type 0
Counts none n (subscribers, failure) = (subscribers ≡ 0) × (failure ≡ "")
Counts (some count) n (subscribers, failure) =
    ((k : ℕ) × ((count n).0 ≡ ok k) × (subscribers ≡ k) × (failure ≡ ""))
    ⊎ ((x : String) × ((count n).0 ≡ err x) × (subscribers ≡ 0) × (failure ≡ x))

info_of-Tells :
    (e : NfEndpoint) (answer : Result String HttpStatus)
    → Tells e answer (record { name = e.name; info = info_of e.url answer })
info_of-Tells e (err x) = (refl, refl, inr (inr (x, refl, refl, refl)))
info_of-Tells e (ok r) = elim (Bool-cases (r.status_code == 200)) [
  | inl t ↦ (refl, rw t, inl (r, refl, ground arith, rw t, rw t))
  | inr f ↦ (refl, rw f, inr (inl (r, refl, λ e. ground arith, rw f, rw f)))
]

module _ {N : Type 0} (svc : Service N) where
  abbrev pub is_broken : NfEndpoint → Bool
  is_broken e = not (svc.is_request e.url)

  -- What is known of the loop: a panic when an endpoint has no URL, and else the reports.
  abbrev Probed : List NfEndpoint → N → Option (List NfStatus) → Type 0
  Probed es n x =
      ((exists is_broken es ≡ true) × (x ≡ none))
      ⊎ ((exists is_broken es ≡ false)
          × (ss : List NfStatus) × (x ≡ some ss)
          × Reports svc.fetch es n ss)

  probe_all-Probed : (es : List NfEndpoint) (n : N) → Probed es n (probe_all svc es n).0
  probe_all-Probed [] n = inr (refl, [], refl, tt)
  probe_all-Probed (e ∷ es) n = elim (Bool-cases (svc.is_request e.url)) [
    | inr f ↦ inl (rw f refl, rw f refl)
    | inl t ↦ elim (probe_all-Probed es (svc.fetch e.url n).1) [
      | inl (broken, panicked) ↦ inl (rw t broken, rw (t, panicked) refl)
      | inr (fine, ss, given, reports) ↦ inr (
        rw t fine,
        (record { name = e.name; info = info_of e.url (svc.fetch e.url n).0 }) ∷ ss,
        rw (t, given) refl,
        (info_of-Tells e (svc.fetch e.url n).0, reports),
      )
    ]
  ]

  counted-Counts :
      (count : N → Result String ℕ × N) (n : N) (r : Result String ℕ)
      → (count n).0 ≡ r
      → Counts (some count) n (counted r)
  counted-Counts count n (ok k) e = inl (k, e, refl, refl)
  counted-Counts count n (err x) e = inr (x, e, refl, refl)

  count_from-Counts :
      (counter : Option (N → Result String ℕ × N)) (n : N)
      → Counts counter n (count_from svc counter n).0
  count_from-Counts none n = (refl, refl)
  count_from-Counts (some count) n = counted-Counts count n (count n).0 refl

  -- When the URL of an endpoint does not parse, `Status` panics and gives no status. Otherwise it
  -- gives one, which has one report for each endpoint, that says that it is reachable after an
  -- answer of 200 and only then, and else has the status line or the error; and which has the
  -- number that the counter gives, 0 with the error when the count fails, and 0 without an error
  -- when there is no counter.
  pub status-Reports :
      (n : N)
      → ((exists is_broken svc.nf_endpoints ≡ true) × ((status svc n).0 ≡ none))
        ⊎ ((exists is_broken svc.nf_endpoints ≡ false)
            × (st : Status) × ((status svc n).0 ≡ some st)
            × Reports svc.fetch svc.nf_endpoints n st.nfs
            × Counts svc.counter
                (probe_all svc svc.nf_endpoints n).1
                (st.subscribers, st.subscribers_error))
  unfolding status
  status-Reports n =
      let n1 : N = (probe_all svc svc.nf_endpoints n).1 in
      elim (probe_all-Probed svc.nf_endpoints n) [
        | inl (broken, panicked) ↦ inl (broken, ap (λ x. (summed svc n (x, n1)).0) panicked)
        | inr (fine, ss, given, reports) ↦ inr (
          fine,
          _,
          ap (λ x. (summed svc n (x, n1)).0) given,
          reports,
          count_from-Counts svc.counter n1,
        )
      ]
