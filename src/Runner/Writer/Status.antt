-- ===== src/Runner/Writer/Status.antt =====
-- The recorded status against the one that the client gets.
use aerial_ran_platform.Base.{ℕ, ◌≢◌, List, [], ◌∷◌, ◌≡◌, refl, arith, ◌==◌, false}
use aerial_ran_platform.Runner.Writer.{
  Action, set_header, write_header, write, sent_status, recorded_status, is_informational,
}

-- Nothing but headers and bytes.
abbrev pub NoStatus : List Action → Type 0
NoStatus [] = Unit
NoStatus (set_header k v ∷ xs) = NoStatus xs
NoStatus (write_header c ∷ xs) = ⊥
NoStatus (write n ∷ xs) = NoStatus xs

-- One answer: headers, then a final status that is no 0 or some bytes, then no status again.
abbrev pub IsAnswer : List Action → Type 0
IsAnswer [] = ⊥
IsAnswer (set_header k v ∷ xs) = IsAnswer xs
IsAnswer (write_header c ∷ xs) = (is_informational c ≡ false) × (c ≢ 0) × NoStatus xs
IsAnswer (write n ∷ xs) = NoStatus xs

recorded_kept : (c : ℕ) (xs : List Action) → c ≢ 0 → NoStatus xs → recorded_status c xs ≡ c
recorded_kept c [] ne h = refl
recorded_kept c (set_header k v ∷ xs) ne h = recorded_kept c xs ne h
recorded_kept c (write_header d ∷ xs) ne h = absurd h
recorded_kept c (write n ∷ xs) ne h = rw (nonzero c ne) (recorded_kept c xs ne h)
  where
    nonzero : (c : ℕ) → c ≢ 0 → (c == 0) ≡ false
    nonzero c ne = ground arith

-- What the recorders keep of one answer is the status that the client gets.
pub recorded_is_sent : (xs : List Action) → IsAnswer xs → recorded_status 0 xs ≡ sent_status xs
recorded_is_sent [] h = absurd h
recorded_is_sent (set_header k v ∷ xs) h = recorded_is_sent xs h
recorded_is_sent (write_header c ∷ xs) (final, ne, h) = rw final (recorded_kept c xs ne h)
recorded_is_sent (write n ∷ xs) h = recorded_kept 200 xs (λ e. ground arith) h
