-- ===== src/Http/Send/Keys.antt =====
-- The idempotency key of the requests that `send` makes, and of the context that it leaves.
use manipulate.Prelude.{
  ℕ, zero, suc, ◌≡◌, refl, String, Bool, true, false, ◌||◌, Option, none, some, List, [], ◌∷◌, ◌⊎◌,
  inl, inr, if◌then◌else◌, eqb, ltb, leb,
}
use manipulate.Context.{Types, Context}
use manipulate.Errors.{Error, Result, ok, err, panic}
use manipulate.Http.Headers.{Headers, read_headers}
use manipulate.Http.Exchange.{
  Client, canceled, deadline_exceeded, end_of_input, network, untrusted, other, Response, Reply,
  failed, responded, Request, Step, finish, retry, renew_last, renew_again, renew_twice,
  after_fault, after_renewal, renewing, refused, decoded, succeeded, read_response, after_status,
  retried_status, receive,
}
use manipulate.Http.Send.{
  Sent, sent, crashed, sending, Verdict, give_up, wait, unless_given_up, end_round, with_request,
  send_loop, with_timeout, send, sub_context_timeout, deadline_or,
}

-- A property of the state that a renewal keeps, and every request that is made for a context with
-- the key. A run that keeps each such property sends no other request.
pub record IsKeptWithKey {T : Types} {Body Object S : Type 0} (client : Client T Body Object S)
    (key : String) (Good : S → Type 0) : Type 0 where
  pub performed :
      (timeout : ℕ) (c : Context T) (s : S) (request : Request)
      → c.idempotency_key ≡ key
      → client.new_request timeout c s ≡ ok request
      → Good s
      → Good (client.perform request s).1
  pub renewed :
      (renew : S → Option Error × S)
      → client.renew ≡ some renew
      → (s : S) → Good s
      → Good (renew s).1

module _ {T : Types} {Body Object S : Type 0} (client : Client T Body Object S) (key : String)
    (Good : S → Type 0) (kept : IsKeptWithKey client key Good) where
  abbrev HasKey : Context T → S → Type 0
  HasKey c s = (c.idempotency_key ≡ key) × Good s

  abbrev StepHasKey : Step T Body Object S → Type 0
  StepHasKey (finish r e c o s) = HasKey c s
  StepHasKey (retry e curve renewed c s) = HasKey c s

  abbrev pub SentHasKey : Sent T Body Object S → Type 0
  SentHasKey (sent r e c o waits s) = HasKey c s
  SentHasKey crashed = Unit
  SentHasKey (sending s) = Good s

  read_headers-HasKey :
      (h : Headers) (c : Context T) (s : S) → HasKey c s → HasKey (read_headers client.atoi h c) s
  unfolding read_headers
  read_headers-HasKey h c s k = k

  renew_again-kept :
      (renew : S → Option Error × S) (r : Option Error × S)
      → ((s : S) → Good s → Good (renew s).1)
      → Good r.1
      → Good (renew_again renew r).1
  renew_again-kept renew (none, s) h g = g
  renew_again-kept renew (some e, s) h g = last (renew s) (h s g)
    where
      last : (r : Option Error × S) → Good r.1 → Good (renew_last r).1
      last (none, s) g = g
      last (some e, s) g = g

  renew_twice-kept :
      (renew : S → Option Error × S)
      → client.renew ≡ some renew
      → (s : S) → Good s
      → Good (renew_twice renew s).1
  unfolding renew_twice
  renew_twice-kept renew same s g =
      renew_again-kept renew (renew s) (kept.renewed renew same) (kept.renewed renew same s g)

  renewing-HasKey :
      (renew : Option (S → Option Error × S)) (curve : List ℕ) (c : Context T) (o : Option Object)
      (s : S) (errs : Error)
      → client.renew ≡ renew
      → HasKey c s
      → StepHasKey (renewing client renew curve c o s errs)
  renewing-HasKey none curve c o s errs same k = k
  renewing-HasKey (some renew) curve c o s errs same k =
      by (renew_twice renew s) (renew_twice-kept renew same s k.1)
    where
      by : (r : Bool × S) → Good r.1 → StepHasKey (after_renewal client curve c o errs r)
      by (true, s') g = (k.0, g)
      by (false, s') g = (k.0, g)

  refused-HasKey :
      (renewed : Bool) (curve : List ℕ) (c : Context T) (o : Option Object) (s : S) (status : ℕ)
      (e : Error ⊎ Error)
      → HasKey c s
      → StepHasKey (refused client renewed curve c o s status e)
  refused-HasKey renewed curve c o s status (inl e) k = k
  refused-HasKey true curve c o s status (inr errs) k = k
  refused-HasKey false curve c o s status (inr errs) k = by (eqb status 403 || eqb status 401)
    where
      by :
          (b : Bool)
          → StepHasKey (
              if b
              then renewing client client.renew curve c o s errs
              else finish none (some errs) c o s)
      by true = renewing-HasKey client.renew curve c o s errs refl k
      by false = k

  succeeded-HasKey :
      (r : Response Body) (c : Context T) (o : Option Object) (s : S) (is_empty : Bool)
      → HasKey c s
      → StepHasKey (succeeded client r c o s is_empty)
  succeeded-HasKey r c o s true k = k
  succeeded-HasKey r c none s false k = k
  succeeded-HasKey r c (some o) s false k = by (client.decode r o)
    where
      by : (d : Option Error × Object) → StepHasKey (decoded client r c s d)
      by (none, o) = k
      by (some e, o) = k

  read_response-HasKey :
      (renewed : Bool) (curve : List ℕ) (c : Context T) (o : Option Object) (s : S)
      (r : Response Body)
      → HasKey c s
      → StepHasKey (read_response client renewed curve c o s r)
  read_response-HasKey renewed curve c o s r k = by (ltb r.status 200 || leb 300 r.status)
    where
      by :
          (b : Bool)
          → StepHasKey (
              if b
              then refused client renewed curve c o s r.status (client.decode_errors r)
              else succeeded client r c o s (eqb r.status 204 || r.is_empty))
      by true = refused-HasKey renewed curve c o s r.status (client.decode_errors r) k
      by false = succeeded-HasKey r c o s _ k

  receive-HasKey :
      (renewed : Bool) (last : Option Error) (curve : List ℕ) (c : Context T) (o : Option Object)
      (s : S) (reply : Reply Body)
      → HasKey c s
      → StepHasKey (receive client renewed last curve c o s reply)
  unfolding receive after_fault
  receive-HasKey renewed last curve c o s (failed canceled text) k = k
  receive-HasKey renewed last curve c o s (failed deadline_exceeded text) k = k
  receive-HasKey renewed last curve c o s (failed end_of_input text) k = k
  receive-HasKey renewed last curve c o s (failed (network reset) text) k = k
  receive-HasKey renewed last curve c o s (failed untrusted text) k = k
  receive-HasKey renewed last curve c o s (failed other text) k = k
  receive-HasKey renewed last curve c o s (responded r) k = by (retried_status r.status)
    where
      by :
          (status : Option (Error × Bool))
          → StepHasKey (after_status client renewed curve c o s r status)
      by (some (e, strong)) = k
      by none =
          read_response-HasKey renewed curve (read_headers client.atoi r.headers c) o s r
            (read_headers-HasKey r.headers c s k)

  unless_given_up-HasKey :
      (c : Context T) (o : Option Object) (waits : List ℕ) (s : S) (next : ℕ → Sent T Body Object S)
      (v : Verdict client)
      → HasKey c s
      → ((d : ℕ) → SentHasKey (next d))
      → SentHasKey (unless_given_up client c o waits s next v)
  unless_given_up-HasKey c o waits s next (give_up e) k later = k
  unless_given_up-HasKey c o waits s next (wait d) k later = later d

  end_round-HasKey :
      (deadline try : ℕ) (o : Option Object) (waits : List ℕ)
      (next : Error → List ℕ → Bool → Context T → S → ℕ → Sent T Body Object S)
      (step : Step T Body Object S)
      → StepHasKey step
      → ((e : Error) (curve : List ℕ) (renewed : Bool) (c : Context T) (s : S) (d : ℕ)
          → HasKey c s
          → SentHasKey (next e curve renewed c s d))
      → SentHasKey (end_round client deadline try o waits next step)
  end_round-HasKey deadline try o waits next (finish r e c o' s) k later = k
  end_round-HasKey deadline try o waits next (retry e curve renewed c s) k later =
      unless_given_up-HasKey c o waits s _ _ k λ d. later e curve renewed c s d k

  with_request-HasKey :
      (c : Context T) (o : Option Object) (waits : List ℕ) (s : S)
      (next : Request → Sent T Body Object S) (request : Result Request)
      → HasKey c s
      → ((r : Request) → request ≡ ok r → SentHasKey (next r))
      → SentHasKey (with_request client c o waits s next request)
  with_request-HasKey c o waits s next (ok request) k later = later request refl
  with_request-HasKey c o waits s next (err e) k later = k
  with_request-HasKey c o waits s next panic k later = tt

  send_loop-HasKey :
      (deadline timeout : ℕ) (o : Option Object) (fuel try : ℕ) (last : Option Error)
      (renewed : Bool) (curve : List ℕ) (c : Context T) (waits : List ℕ) (s : S)
      → HasKey c s
      → SentHasKey (send_loop client deadline timeout o fuel try last renewed curve c waits s)
  unfolding send_loop
  send_loop-HasKey deadline timeout o zero try last renewed curve c waits s k = k.1
  send_loop-HasKey deadline timeout o (suc fuel) try last renewed curve c waits s k =
      let next = λ (e : Error) (curve : List ℕ) (renewed : Bool) (c : Context T) (s : S) (d : ℕ).
        send_loop client deadline timeout o fuel (suc try) (some e) renewed curve c (d ∷ waits) s in
      let step = λ (request : Request).
        receive client renewed last curve c o (client.perform request s).1
          (client.perform request s).0 in
      with_request-HasKey c o waits s
        (λ request. end_round client deadline try o waits next (step request))
        (client.new_request timeout c s) k
        λ request made.
          end_round-HasKey deadline try o waits next (step request)
            (receive-HasKey renewed last curve c o (client.perform request s).1
              (client.perform request s).0 (k.0, kept.performed timeout c s request k.0 made k.1))
            λ e curve renewed c s d k.
              send_loop-HasKey deadline timeout o fuel (suc try) (some e) renewed curve c
                (d ∷ waits) s k

  with_timeout-HasKey :
      (next : ℕ → Sent T Body Object S) (timeout : Result ℕ)
      → ((t : ℕ) → SentHasKey (next t))
      → SentHasKey (with_timeout client next timeout)
  with_timeout-HasKey next (ok t) h = h t
  with_timeout-HasKey next (err e) h = tt
  with_timeout-HasKey next panic h = tt

  pub send-HasKey :
      (deadline : Option ℕ) (now fuel : ℕ) (c : Context T) (o : Option Object) (s : S)
      → HasKey c s
      → SentHasKey (send client deadline now fuel c o s)
  unfolding send
  send-HasKey deadline now fuel c o s k =
      with_timeout-HasKey _ (sub_context_timeout c.retry_ratio (deadline_or deadline now) now)
        λ t. send_loop-HasKey (deadline_or deadline now) t o fuel 0 none false _ c [] s k
