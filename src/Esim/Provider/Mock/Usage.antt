-- ===== src/Esim/Provider/Mock/Usage.antt =====
-- The usage that the mock reports: within the allowance of the order, and a tenth more at each call.
use aerial_ran_platform.Base.{
  ℕ, zero, suc, ◌+◌, ◌*◌, ◌/◌, ◌≤◌, String, Bool, not, Option, none, some, List, [], ◌∷◌, ◌≡◌, refl,
  arith, ◌∙◌, sym, ap, All, find, select, str_eq_refl, Bool-cases, inl, inr,
}
use mathlib.Core.Option
use native.Mathlib.Nat.{suc-mul, add-mul}
use mathlib.Core.Option.{some-injective}
use aerial_ran_platform.Base.Int.{pos}
use aerial_ran_platform.Go.Exec.{ok}
use aerial_ran_platform.Esim.Provider.Mock.{
  MockOrder, Entry, Mock, Surroundings, has_key, put, used_more, capped, issue, order, lower_hex,
  hour, ◌&◌, usage_mb, polled, cancel, terms,
}

-- What one call of a method leaves of the provider.
pub data Step (around : Surroundings) : Mock → Mock → Type 0 where
  ordered :
      (package_id external_ref : String) {m : Mock}
      → Step around m (order {S = Unit {0}} around package_id external_ref m).1
  polled_usage : (ref : String) {m : Mock} → Step around m (usage_mb {S = Unit {0}} ref m).1
  cancelled : (ref : String) {m : Mock} → Step around m (cancel {S = Unit {0}} ref m).1

pub data Reach (around : Surroundings) : Mock → Type 0 where
  new : Reach around (record { readings = 0; state = [] })
  next : {m m' : Mock} → Reach around m → Step around m m' → Reach around m'

abbrev pub Within : Entry → Type 0
Within e = e.value.usage_mb ≤ e.value.data_mb

pub record WithinAllowance (m : Mock) : Type 0 where
  pub within : All Within m.state

select-Within : (p : Entry → Bool) (es : List Entry) → All Within es → All Within (select p es)
select-Within p [] h = tt
select-Within p (e ∷ es) (h, hs) = elim (Bool-cases (p e)) [
  | inl t ↦ rw t (h, select-Within p es hs)
  | inr f ↦ rw f (select-Within p es hs)
]

put-Within :
    (ref : String) (o : MockOrder) (es : List Entry)
    → o.usage_mb ≤ o.data_mb
    → All Within es
    → All Within (put ref o es)
put-Within ref o es b h = (b, select-Within _ es h)

capped-≤ : (limit n : ℕ) → capped limit n ≤ limit
capped-≤ limit n = ground arith

put_more-Within :
    (ref : String) (o : Option Entry) (m : Mock)
    → WithinAllowance m
    → WithinAllowance (polled {S = Unit {0}} ref o m).1
put_more-Within ref none m h = h
put_more-Within ref (some e) m h = record {
  within = put-Within ref (used_more e.value) m.state (capped-≤ e.value.data_mb _) h.within;
}

issue-Within :
    (clock : ℕ → ℕ) (package_id : String) (bytes : Option (List ℕ)) (m : Mock)
    → WithinAllowance m
    → WithinAllowance (issue {S = Unit {0}} clock package_id bytes m).1
issue-Within clock package_id none m h = h
issue-Within clock package_id (some bytes) m h = record {
  within =
      put-Within ("mock-ord-" & lower_hex bytes)
        (record {
          package_id = package_id;
          created_at = clock (suc m.readings);
          expires_at = clock m.readings + (terms package_id).0 * 24 * hour;
          data_mb = (terms package_id).1;
          usage_mb = 0;
        })
        m.state (ground arith) h.within;
}

-- In every state that the mock's methods can reach, no order has used more than its allowance.
pub reachable-WithinAllowance :
    (around : Surroundings) {m : Mock} → Reach around m → WithinAllowance m
unfolding order usage_mb cancel
reachable-WithinAllowance around new = record { within = tt }
reachable-WithinAllowance around (next {m} r s) = step-Within s (reachable-WithinAllowance around r)
  where
    step-Within : {m m' : Mock} → Step around m m' → WithinAllowance m → WithinAllowance m'
    step-Within (ordered package_id external_ref {m}) h =
        issue-Within around.clock package_id (around.random m.readings) m h
    step-Within (polled_usage ref {m}) h = put_more-Within ref (find (has_key ref) m.state) m h
    step-Within (cancelled ref {m}) h = record {
      within = select-Within (λ e. not (has_key ref e)) m.state h.within;
    }

-- The mock after `k` polls of one order.
abbrev pub polls : ℕ → String → Mock → Mock
polls zero ref m = m
polls (suc k) ref m = (usage_mb {S = Unit {0}} ref (polls k ref m)).1

abbrev used : ℕ → MockOrder → MockOrder
used k o = record o { usage_mb = capped o.data_mb (k * (o.data_mb / 10)) }

capped_more : (limit t k : ℕ) → capped limit (capped limit (k * t) + t) ≡ capped limit (suc k * t)
capped_more limit t k = rw (suc-mul k t) (room limit t (k * t))
  where
    room : (limit t x : ℕ) → capped limit (capped limit x + t) ≡ capped limit (x + t)
    room limit t x = ground arith

-- The order under a reference.
abbrev pub lookup : String → Mock → Option MockOrder
lookup ref m = Option.map (λ (e : Entry). e.value) (find (has_key ref) m.state)

used_none : (o : MockOrder) → o.usage_mb ≡ 0 → o ≡ used 0 o
used_none o h = λ i. record o { usage_mb = (h ∙ none_yet o.data_mb (o.data_mb / 10)) i }
  where
    none_yet : (limit t : ℕ) → 0 ≡ capped limit (0 * t)
    none_yet limit t = ground arith

none_is_not_some {ℓ} : {P : Type ℓ} {o : MockOrder} → ◌≡◌ {A = Option MockOrder} none (some o) → P
none_is_not_some p = cc

polled_once :
    {S : Type 0} (ref : String) (o : MockOrder) (m : Mock)
    → lookup ref m ≡ some o
    → (lookup ref (usage_mb {S = Unit {0}} ref m).1 ≡ some (used_more o))
      × ((usage_mb {S = S} ref m).0 ≡ ok (pos (used_more o).usage_mb))
unfolding usage_mb
polled_once {S} ref o m h = from (find (has_key ref) m.state) refl
  where
    from :
        (x : Option Entry)
        → find (has_key ref) m.state ≡ x
        → (lookup ref (usage_mb {S = Unit {0}} ref m).1 ≡ some (used_more o))
          × ((usage_mb {S = S} ref m).0 ≡ ok (pos (used_more o).usage_mb))
    from none e = none_is_not_some (sym (ap (Option.map (λ (e : Entry). e.value)) e) ∙ h)
    from (some x) e =
        let v : x.value ≡ o =
          some-injective _ _ (sym (ap (Option.map (λ (e : Entry). e.value)) e) ∙ h) in
        (rw (e, str_eq_refl ref, v) refl, rw (e, v) refl)

polls_lem :
    (k : ℕ) (ref : String) (o : MockOrder) (m : Mock)
    → lookup ref m ≡ some o
    → o.usage_mb ≡ 0
    → lookup ref (polls k ref m) ≡ some (used k o)
polls_lem zero ref o m h unused = h ∙ ap some (used_none o unused)
polls_lem (suc k) ref o m h unused =
    (polled_once {S = Unit {0}} ref (used k o) (polls k ref m) (polls_lem k ref o m h unused)).0
    ∙ ap some (λ i. record o { usage_mb = capped_more o.data_mb (o.data_mb / 10) k i })

-- The `k + 1`-th poll of a new order answers `k + 1` tenths of its allowance, each rounded down,
-- and never more than the allowance.
pub polled_tenths :
    {S : Type 0} (k : ℕ) (ref : String) (o : MockOrder) (m : Mock)
    → lookup ref m ≡ some o
    → o.usage_mb ≡ 0
    → (usage_mb {S = S} ref (polls k ref m)).0
      ≡ ok (pos (capped o.data_mb (suc k * (o.data_mb / 10))))
polled_tenths k ref o m h unused =
    (polled_once ref (used k o) (polls k ref m) (polls_lem k ref o m h unused)).1
    ∙ (λ i. ok (pos (capped_more o.data_mb (o.data_mb / 10) k i)))

exhausted : (limit k : ℕ) → 10 ≤ limit → capped limit ((20 + k) * (limit / 10)) ≡ limit
exhausted limit k enough =
    rw (add-mul 20 k (limit / 10)) (past limit (limit / 10) (k * (limit / 10)) refl enough)
  where
    past : (m q x : ℕ) → q ≡ m / 10 → 10 ≤ m → capped m (20 * q + x) ≡ m
    past m q x e h = ground arith

-- From the twentieth poll on, the usage of a new order with an allowance of at least 10 MB is its
-- whole allowance: polling always ends there.
pub polled_out :
    {S : Type 0} (k : ℕ) (ref : String) (o : MockOrder) (m : Mock)
    → lookup ref m ≡ some o
    → o.usage_mb ≡ 0
    → 10 ≤ o.data_mb
    → (usage_mb {S = S} ref (polls (19 + k) ref m)).0 ≡ ok (pos o.data_mb)
polled_out k ref o m h unused enough =
    polled_tenths (19 + k) ref o m h unused
    ∙ ap (λ (n : ℕ). ok (pos (capped o.data_mb (n * (o.data_mb / 10))))) (twenty k)
    ∙ ap (λ (n : ℕ). ok (pos n)) (exhausted o.data_mb k enough)
  where
    twenty : (k : ℕ) → suc (19 + k) ≡ 20 + k
    twenty k = omega arith
