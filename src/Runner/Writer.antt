-- ===== src/Runner/Writer.antt =====
-- What a handler of net/http does, as a value: the calls that it makes on its ResponseWriter, in
-- order, and whether it panics after them.
pub mod Status
use aerial_ran_platform.Base.{
  ℕ, String, Bool, Option, List, [], ◌∷◌, ◌++◌, ◌==◌, if◌then◌else◌, ◌+◌, leb, ◌&&◌, not,
}
use aerial_ran_platform.Jwt.{Claims}

pub data Action : Type 0 where
  -- `w.Header().Set(…)`, `w.WriteHeader(…)`, and `w.Write` of a number of bytes
  set_header : String → String → Action
  write_header : ℕ → Action
  write : ℕ → Action

pub record Trace : Type 0 where
  pub actions : List Action
  pub panicked : Bool

pub record Request : Type 0 where
  pub method : String
  pub path : String
  pub origin : String
  pub authorization : String
  pub has_body : Bool
  -- How much of the body can be read, and the claims in the context.
  pub body_limit : Option ℕ
  pub claims : Option Claims

-- `W` is what handlers read and change.
abbrev pub Handler : Type 0 → Type 0
Handler W = Request → W → Trace × W

-- net/http sends an informational status at once and waits for the final one. A status below 100 or
-- over 999, on which it panics, is not covered.
abbrev pub is_informational : ℕ → Bool
is_informational c = leb 100 c && leb c 199 && not (c == 101)

-- The status that the client gets: that of the first call that sends a final header.
abbrev pub sent_status : List Action → ℕ
sent_status [] = 200
sent_status (set_header k v ∷ xs) = sent_status xs
sent_status (write_header c ∷ xs) =
    let rest = sent_status xs in if is_informational c then rest else c
sent_status (write n ∷ xs) = 200

-- The field `status` of httplog's and of metrics' `statusRecorder`, from a first value.
abbrev pub recorded_status : ℕ → List Action → ℕ
recorded_status s [] = s
recorded_status s (set_header k v ∷ xs) = recorded_status s xs
recorded_status s (write_header c ∷ xs) = recorded_status c xs
recorded_status s (write n ∷ xs) = recorded_status (if s == 0 then 200 else s) xs

-- The field `bytes` of httplog's `statusRecorder`.
abbrev pub recorded_bytes : List Action → ℕ
recorded_bytes [] = 0
recorded_bytes (set_header k v ∷ xs) = recorded_bytes xs
recorded_bytes (write_header c ∷ xs) = recorded_bytes xs
recorded_bytes (write n ∷ xs) = n + recorded_bytes xs

-- `http.Error(w, text, code)` of a text of `n` bytes, behind which it writes a newline.
abbrev pub http_error : ℕ → ℕ → List Action
http_error code n =
    set_header "Content-Type" "text/plain; charset=utf-8"
    ∷ set_header "X-Content-Type-Options" "nosniff"
    ∷ write_header code
    ∷ write (n + 1)
    ∷ []

abbrev pub behind : List Action → Trace → Trace
behind xs t = record t { actions = xs ++ t.actions }
