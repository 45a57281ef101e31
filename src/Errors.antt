-- ===== src/Errors.antt =====
-- errors.go: the error types of the package `manipulate`, what they print, what they wrap, and
-- the functions that recognise them. Other errors are `foreign` (an error of another package, or
-- one that `fmt.Errorf` makes without `%w`) and `wrapped` (`fmt.Errorf("<text>: %w", err)`).
pub mod Recognition
use manipulate.Prelude.{Bool, true, false, String, ◌<>◌, Option, none, some}

-- The error types whose only field is `Err`, in the order of the source.
pub data Kind : Type 0 where
  cannot_unmarshal cannot_marshal object_not_found multiple_objects_found : Kind
  cannot_build_query cannot_execute_query cannot_commit not_implemented : Kind
  cannot_communicate locked transaction_not_found constraint_violation : Kind
  disconnected too_many_requests tls : Kind

pub data Error : Type 0 where
  foreign : String → Error
  wrapped : String → Error → Error
  invalid_query : Bool → Error → Error
  typed : Kind → Error → Error

abbrev pub prefix : Kind → String
prefix cannot_unmarshal = "Unable to unmarshal data: "
prefix cannot_marshal = "Unable to marshal data: "
prefix object_not_found = "Object not found: "
prefix multiple_objects_found = "Multiple objects found: "
prefix cannot_build_query = "Unable to build query: "
prefix cannot_execute_query = "Unable to execute query: "
prefix cannot_commit = "Unable to commit transaction: "
prefix not_implemented = "Not implemented: "
prefix cannot_communicate = "Cannot communicate: "
prefix locked = "Cannot communicate: "
prefix transaction_not_found = "Transaction not found: "
prefix constraint_violation = "Constraint violation: "
prefix disconnected = "Disconnected: "
prefix too_many_requests = "Too many requests: "
prefix tls = "TLS error: "

-- The methods `Error`.
unfoldable pub message : Error → String
message (foreign text) = text
message (wrapped text e) = text <> ": " <> message e
message (invalid_query due_to_filter e) = "Query invalid: " <> message e
message (typed k e) = prefix k <> message e

-- The methods `Unwrap`.
unfoldable pub unwrap : Error → Option Error
unwrap (foreign text) = none
unwrap (wrapped text e) = some e
unwrap (invalid_query due_to_filter e) = some e
unwrap (typed k e) = some e

-- `_, ok := err.(ErrX)`: a type assertion looks at the error itself and not at what it wraps.
unfoldable pub is_cannot_unmarshal_error : Error → Bool
is_cannot_unmarshal_error (typed cannot_unmarshal e) = true
is_cannot_unmarshal_error _ = false

unfoldable pub is_cannot_marshal_error : Error → Bool
is_cannot_marshal_error (typed cannot_marshal e) = true
is_cannot_marshal_error _ = false

unfoldable pub is_object_not_found_error : Error → Bool
is_object_not_found_error (typed object_not_found e) = true
is_object_not_found_error _ = false

unfoldable pub is_multiple_objects_found_error : Error → Bool
is_multiple_objects_found_error (typed multiple_objects_found e) = true
is_multiple_objects_found_error _ = false

unfoldable pub is_cannot_build_query_error : Error → Bool
is_cannot_build_query_error (typed cannot_build_query e) = true
is_cannot_build_query_error _ = false

unfoldable pub is_cannot_execute_query_error : Error → Bool
is_cannot_execute_query_error (typed cannot_execute_query e) = true
is_cannot_execute_query_error _ = false

unfoldable pub is_cannot_commit_error : Error → Bool
is_cannot_commit_error (typed cannot_commit e) = true
is_cannot_commit_error _ = false

unfoldable pub is_not_implemented_error : Error → Bool
is_not_implemented_error (typed not_implemented e) = true
is_not_implemented_error _ = false

unfoldable pub is_cannot_communicate_error : Error → Bool
is_cannot_communicate_error (typed cannot_communicate e) = true
is_cannot_communicate_error _ = false

unfoldable pub is_locked_error : Error → Bool
is_locked_error (typed locked e) = true
is_locked_error _ = false

unfoldable pub is_transaction_not_found_error : Error → Bool
is_transaction_not_found_error (typed transaction_not_found e) = true
is_transaction_not_found_error _ = false

unfoldable pub is_constraint_violation_error : Error → Bool
is_constraint_violation_error (typed constraint_violation e) = true
is_constraint_violation_error _ = false

unfoldable pub is_disconnected_error : Error → Bool
is_disconnected_error (typed disconnected e) = true
is_disconnected_error _ = false

unfoldable pub is_too_many_requests_error : Error → Bool
is_too_many_requests_error (typed too_many_requests e) = true
is_too_many_requests_error _ = false

unfoldable pub is_tls_error : Error → Bool
is_tls_error (typed tls e) = true
is_tls_error _ = false

-- A call that returns a value, returns an error, or panics.
pub data Result {ℓ} (A : Type ℓ) : Type ℓ where
  ok : A → Result A
  err : Error → Result A
  panic : Result A

infixl 5 ◌>>=◌
abbrev pub ◌>>=◌ {ℓ κ} : {A : Type ℓ} {B : Type κ} → Result A → (A → Result B) → Result B
ok a >>= f = f a
err e >>= f = err e
panic >>= f = panic
