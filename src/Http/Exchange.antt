-- ===== src/Http/Exchange.antt =====
-- maniphttp/manipulator.go: one round of `send`, from a reply of the client to the end or the label
-- RETRY. What is under the manipulator (the client, the decoders, the renewal of the token, the
-- clock) is a parameter; `S` is its state.
use manipulate.Prelude.{
  ℕ, String, Bool, true, false, ◌||◌, Option, none, some, List, ◌⊎◌, inl, inr, if◌then◌else◌, ltb,
  leb, eqb,
}
use manipulate.Prelude.Int.{ℤ}
use manipulate.Context.{Types, Context}
use manipulate.Errors.{
  Error, typed, foreign, cannot_communicate, cannot_execute_query, disconnected, locked,
  too_many_requests, tls, Result,
}
use manipulate.Http.Headers.{Headers, read_headers}
use manipulate.Snip.{snip}

-- The errors of client.Do that the code tells apart. A network error may be a reset connection.
pub data Fault : Type 0 where
  canceled deadline_exceeded end_of_input : Fault
  network : Bool → Fault
  untrusted other : Fault

pub record Response (Body : Type 0) : Type 0 where
  pub status : ℕ
  pub headers : Headers
  pub is_empty : Bool
  pub body : Body

pub data Reply (Body : Type 0) : Type 0 where
  failed : Fault → String → Reply Body
  responded : Response Body → Reply Body

pub record Request : Type 0 where
  pub method : String
  pub url : String
  pub query : Headers
  pub headers : Headers
  pub timeout : ℕ

-- The manipulator and what is under it. `renew` is there if there is a token manager, and
-- `format` is fmt.Errorf of a format without arguments.
pub record Client (T : Types) (Body Object S : Type 0) : Type 0 where
  pub disable_auto_retry : Bool
  pub default_retry_func : Option T.RetryFunc
  pub backoff_curve : List ℕ
  pub strong_backoff_curve : List ℕ
  pub new_request : ℕ → Context T → S → Result Request
  pub perform : Request → S → Reply Body × S
  pub current_password : S → String
  pub renew : Option (S → Option Error × S)
  pub decode_errors : Response Body → Error ⊎ Error
  pub decode : Response Body → Object → Option Error × Object
  pub format : String → String
  pub atoi : String → ℤ
  pub run_retry : T.RetryFunc → ℕ → Error → Option Error
  pub is_done : ℕ → Bool
  pub now : ℕ → ℕ

-- What one round leads to: the end, or the label RETRY with the last error, the curve and whether
-- the token was renewed.
pub data Step (T : Types) (Body Object S : Type 0) : Type 0 where
  finish :
      Option (Response Body) → Option Error → Context T → Option Object → S → Step T Body Object S
  retry : Error → List ℕ → Bool → Context T → S → Step T Body Object S

abbrev keep_error : Option Error → Error → Error
keep_error none e = e
keep_error (some last) e = last

-- The status codes that trigger a retry, with the error and whether the curve gets stronger.
unfoldable pub retried_status : ℕ → Option (Error × Bool)
retried_status n =
    if eqb n 502
    then some (typed cannot_communicate (foreign "Bad gateway"), false)
    else if eqb n 503
    then some (typed cannot_communicate (foreign "Service unavailable"), false)
    else if eqb n 504
    then some (typed cannot_communicate (foreign "Gateway timeout"), false)
    else if eqb n 423
    then some (typed locked (foreign "The api has been locked down by the server"), false)
    else if eqb n 408
    then some (typed cannot_communicate (foreign "Request Timeout"), false)
    else if eqb n 429
    then some (typed too_many_requests (foreign "Too Many Requests"), true)
    else none

-- Two tries to renew the token, and whether one did.
abbrev pub renew_last : {S : Type 0} → Option Error × S → Bool × S
renew_last (none, s) = (true, s)
renew_last (some e, s) = (false, s)

abbrev pub renew_again : {S : Type 0} → (S → Option Error × S) → Option Error × S → Bool × S
renew_again renew (none, s) = (true, s)
renew_again renew (some e, s) = renew_last (renew s)

unfoldable pub renew_twice : {S : Type 0} → (S → Option Error × S) → S → Bool × S
renew_twice renew s = renew_again renew (renew s)

module _ {T : Types} {Body Object S : Type 0} (client : Client T Body Object S) where
  abbrev pub snipped : String → S → Error
  unfolding snip
  snipped text s =
      typed cannot_communicate (foreign (client.format (snip text (client.current_password s))))

  unfoldable pub after_fault :
      Bool
      → Option Error
      → List ℕ
      → Context T
      → Option Object
      → S
      → Fault
      → String
      → Step T Body Object S
  after_fault renewed last curve c o s canceled text =
      finish none (some (typed disconnected (foreign "context canceled"))) c o s
  after_fault renewed last curve c o s deadline_exceeded text =
      retry (keep_error last (snipped text s)) curve renewed c s
  after_fault renewed last curve c o s end_of_input text =
      retry (keep_error last (snipped text s)) curve renewed c s
  after_fault renewed last curve c o s (network reset) text =
      retry (keep_error last (snipped text s))
        (if reset then client.strong_backoff_curve else curve) renewed c s
  after_fault renewed last curve c o s untrusted text =
      finish none (some (typed tls (foreign text))) c o s
  after_fault renewed last curve c o s other text =
      finish none (some (typed cannot_execute_query (foreign text))) c o s

  -- A response whose status is an error, `errs`, where the token may be renewed.
  abbrev pub after_renewal :
      List ℕ → Context T → Option Object → Error → Bool × S → Step T Body Object S
  after_renewal curve c o errs (true, s) = retry errs curve true c s
  after_renewal curve c o errs (false, s) = finish none (some errs) c o s

  abbrev pub renewing :
      Option (S → Option Error × S)
      → List ℕ
      → Context T
      → Option Object
      → S
      → Error
      → Step T Body Object S
  renewing none curve c o s errs = finish none (some errs) c o s
  renewing (some renew) curve c o s errs = after_renewal curve c o errs (renew_twice renew s)

  abbrev pub refused :
      Bool → List ℕ → Context T → Option Object → S → ℕ → Error ⊎ Error → Step T Body Object S
  refused renewed curve c o s status (inl e) = finish none (some e) c o s
  refused true curve c o s status (inr errs) = finish none (some errs) c o s
  refused false curve c o s status (inr errs) =
      if eqb status 403 || eqb status 401
      then renewing client.renew curve c o s errs
      else finish none (some errs) c o s

  abbrev pub decoded : Response Body → Context T → S → Option Error × Object → Step T Body Object S
  decoded r c s (none, o) = finish (some r) none c (some o) s
  decoded r c s (some e, o) = finish none (some e) c (some o) s

  abbrev pub succeeded : Response Body → Context T → Option Object → S → Bool → Step T Body Object S
  succeeded r c o s true = finish (some r) none c o s
  succeeded r c none s false = finish (some r) none c none s
  succeeded r c (some o) s false = decoded r c s (client.decode r o)

  abbrev pub read_response :
      Bool → List ℕ → Context T → Option Object → S → Response Body → Step T Body Object S
  read_response renewed curve c o s r =
      if ltb r.status 200 || leb 300 r.status
      then refused renewed curve c o s r.status (client.decode_errors r)
      else succeeded r c o s (eqb r.status 204 || r.is_empty)

  abbrev pub after_status :
      Bool
      → List ℕ
      → Context T
      → Option Object
      → S
      → Response Body
      → Option (Error × Bool)
      → Step T Body Object S
  after_status renewed curve c o s r (some (e, strong)) =
      retry e (if strong then client.strong_backoff_curve else curve) renewed c s
  after_status renewed curve c o s r none =
      read_response renewed curve (read_headers client.atoi r.headers c) o s r

  unfoldable pub receive :
      Bool
      → Option Error
      → List ℕ
      → Context T
      → Option Object
      → S
      → Reply Body
      → Step T Body Object S
  unfolding after_fault retried_status renew_twice read_headers
  receive renewed last curve c o s (failed fault text) =
      after_fault renewed last curve c o s fault text
  receive renewed last curve c o s (responded r) =
      after_status renewed curve c o s r (retried_status r.status)
