-- ===== src/Respond.antt =====
-- lib-aerial-go/respond: the JSON answers of every handler, and the shared sink for errors that a
-- handler has not classified. Encoding to JSON is taken to succeed, as it does for the types that
-- the handlers pass.
use aerial_ran_platform.Base.{ℕ, String, if◌then◌else◌}
use aerial_ran_platform.Go.Errors.{Err, is_deadline, is_canceled, as_pg, code_is}
use aerial_ran_platform.Go.Exec.{Result, ok, err, Exec}

-- The text of an answer: written in the handler, or `err.Error()`.
pub data Message (S : Type 0) : Type 0 where
  text : String → Message S
  error_text : Err S → Message S

pub data Body (S A : Type 0) : Type 0 where
  payload : A → Body S A
  problem : String → Message S → Body S A
  no_content : Body S A

pub record Response (S A : Type 0) : Type 0 where
  pub status : ℕ
  pub body : Body S A

module _ {S A : Type 0} where
  -- `JSON(w, status, v)`
  abbrev pub json : ℕ → A → Response S A
  json status v = record { status = status; body = payload v }

  -- `Error(w, status, code, msg)`
  abbrev pub error : ℕ → String → Message S → Response S A
  error status code msg = record { status = status; body = problem code msg }

  -- `w.WriteHeader(http.StatusNoContent)`
  abbrev pub written : Response S A
  written = record { status = 204; body = no_content }

  unfoldable pub db_error : Err S → Response S A
  db_error e =
      if is_deadline e
      then error 504 "deadline_exceeded" (text "request timed out")
      else if is_canceled e
      then error 499 "canceled" (text "request canceled")
      else if code_is (as_pg e) "22P02"
      then error 400 "bad_request" (text "malformed value in request")
      else error 500 "internal" (text "internal server error")

-- Answer with what an operation returned: `if err != nil { …; return }; respond.JSON(…)`.
abbrev pub respond_with :
    {S A B : Type 0} → Result (Err S) A → (A → Response S B) → (Err S → Response S B) → Response S B
respond_with (ok a) good bad = good a
respond_with (err e) good bad = bad e

abbrev pub reply :
    {W S A B : Type 0}
    → Exec W (Err S) A
    → (A → Response S B)
    → (Err S → Response S B)
    → W
    → Response S B × W
reply m good bad w = let (r, w') = m w in (respond_with r good bad, w')
