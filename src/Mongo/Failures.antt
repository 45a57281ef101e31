-- ===== src/Mongo/Failures.antt =====
-- manipmongo/utils.go: `HandleQueryError` and what it calls. The text of an error of the driver, and
-- whether it is one of duplicate keys, are parameters.
use manipulate.Prelude.{
  ℕ, String, Bool, true, false, ◌&&◌, ◌||◌, Option, none, some, List, [], ◌∷◌, if◌then◌else◌, ◌==◌,
  eqb,
}
use manipulate.Prelude.Text.{to_lower, includes, ends_with}
use manipulate.Errors.{
  Error, foreign, typed, invalid_query, cannot_communicate, object_not_found, constraint_violation,
  cannot_execute_query,
}

-- The errors that the code tells apart: a `net.Error`, `mgo.ErrNotFound`, `io.EOF`, the error types
-- of mgo with their codes, and others.
mutual
  pub data Failure : Type 0 where
    net : String → Failure
    not_found : Failure
    eof : Failure
    query : ℕ → String → Failure
    last : ℕ → String → Failure
    bulk : Cases → Failure
    other : String → Failure

  pub data Cases : Type 0 where
    no_case : Cases
    case : Failure → Cases → Cases

pub record Driver : Type 0 where
  pub text : Failure → String
  pub is_dup : Failure → Bool

unfoldable pub get_error_code : Failure → ℕ
get_error_code (query code message) = code
get_error_code (last code message) = code
get_error_code (bulk no_case) = 0
get_error_code (bulk (case f cases)) = get_error_code f
get_error_code _ = 0

-- The query error that an error is, or that the first case of a bulk error is.
unfoldable pub query_error : Failure → Option (ℕ × String)
query_error (query code message) = some (code, message)
query_error (bulk no_case) = none
query_error (bulk (case f cases)) = query_error f
query_error _ = none

abbrev is_invalid : ℕ → String → Bool
is_invalid code message =
    (eqb code 2 && includes (to_lower message) "$regex has to be a string")
    || (eqb code 51_091 && includes (to_lower message) "regular expression is invalid")

abbrev is_eof : Failure → Bool
is_eof eof = true
is_eof _ = false

abbrev one_of : ℕ → List ℕ → Bool
one_of n [] = false
one_of n (m ∷ ms) = eqb n m || one_of n ms

-- The error codes of the switch.
abbrev retried_codes : List ℕ
retried_codes =
    6 ∷ 7 ∷ 71 ∷ 74 ∷ 91 ∷ 109 ∷ 189 ∷ 202 ∷ 216 ∷ 262 ∷ 10_107 ∷ 13_436 ∷ 13_435 ∷ 11_600 ∷ 11_602
    ∷ []

module _ (driver : Driver) where
  abbrev is_connection_text : String → Bool
  is_connection_text s =
      s == "no reachable servers"
      || includes s "lost connection to server"
      || includes s "waiting for replication timed out"
      || includes s "could not contact primary for replica set"
      || includes s "write results unavailable from"
      || includes s "could not find host matching read preference { mode: \"primary\""
      || includes s "unable to target"
      || s == "not master"
      || ends_with s "connection refused"

  unfoldable pub is_connection_error : Failure → Bool
  unfolding to_lower includes ends_with
  is_connection_error f = is_eof f || is_connection_text (to_lower (driver.text f))

  abbrev by_code : Failure → Error
  by_code f =
      if one_of (get_error_code f) retried_codes
      then typed cannot_communicate (foreign (driver.text f))
      else typed cannot_execute_query (foreign (driver.text f))

  -- The error of `invalidQuery`, if it is one, for the query error that is found.
  abbrev invalid_error : Option (ℕ × String) → Option Error
  invalid_error none = none
  invalid_error (some (code, message)) =
      if is_invalid code message
      then some (invalid_query true (foreign (driver.text (query code message))))
      else none

  abbrev after_duplicates : Failure → Error
  after_duplicates f =
      if driver.is_dup f
      then typed constraint_violation (foreign "duplicate key")
      else if is_connection_error f
      then typed cannot_communicate (foreign (driver.text f))
      else elim (invalid_error (query_error f)) [ none ↦ by_code f | some e ↦ e ]

  unfoldable pub handle_query_error : Failure → Error
  unfolding get_error_code query_error is_connection_error
  handle_query_error (net text) = typed cannot_communicate (foreign text)
  handle_query_error not_found =
      typed object_not_found (foreign "cannot find the object for the given ID")
  handle_query_error f = after_duplicates f
