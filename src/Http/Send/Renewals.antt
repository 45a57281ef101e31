-- ===== src/Http/Send/Renewals.antt =====
-- How often `send` renews the token.
use manipulate.Prelude.{
  ℕ, zero, suc, ◌+◌, ◌≤◌, ◌≡◌, refl, Bool, true, false, ◌||◌, Option, none, some, List, [], ◌∷◌,
  ◌⊎◌, inl, inr, if◌then◌else◌, arith, eqb, ltb, leb,
}
use manipulate.Context.{Types, Context}
use manipulate.Errors.{Error, Result, ok, err, panic}
use manipulate.Http.Headers.{read_headers}
use manipulate.Http.Exchange.{
  canceled, deadline_exceeded, end_of_input, network, untrusted, other, Client, Response, Reply,
  failed, responded, Request, Step, finish, retry, renew_last, renew_again, renew_twice,
  after_fault, after_renewal, renewing, refused, decoded, succeeded, read_response, after_status,
  retried_status, receive,
}
use manipulate.Http.Send.{
  Sent, sent, crashed, sending, Verdict, give_up, wait, unless_given_up, end_round, with_request,
  send_loop, with_timeout, send, sub_context_timeout, deadline_or,
}

module _ {T : Types} {Body Object S : Type 0} (client : Client T Body Object S) (renewals : S → ℕ)
    (counts : (renew : S → Option Error × S)
      → client.renew ≡ some renew
      → (s : S) → renewals (renew s).1 ≡ suc (renewals s))
    (performs : (request : Request) (s : S)
      → renewals (client.perform request s).1 ≡ renewals s) where
  -- The renewals that are left.
  abbrev left : Bool → ℕ
  left true = 0
  left false = 2

  abbrev StepWithin : ℕ → Step T Body Object S → Type 0
  StepWithin m (finish r e c o s) = renewals s ≤ m
  StepWithin m (retry e curve renewed c s) = renewals s + left renewed ≤ m

  abbrev pub SentWithin : ℕ → Sent T Body Object S → Type 0
  SentWithin m (sent r e c o waits s) = renewals s ≤ m
  SentWithin m crashed = Unit
  SentWithin m (sending s) = renewals s ≤ m

  StepWithin-le :
      {m m' : ℕ} (step : Step T Body Object S) → StepWithin m step → m ≤ m' → StepWithin m' step
  StepWithin-le (finish r e c o s) h l = omega (arith, h, l)
  StepWithin-le (retry e curve renewed c s) h l = omega (arith, h, l)

  renew_again-le :
      (renew : S → Option Error × S)
      → ((s : S) → renewals (renew s).1 ≡ suc (renewals s))
      → (o : Option Error) (s : S) → renewals (renew_again renew (o, s)).1 ≤ renewals s + 1
  renew_again-le renew h none s = omega arith
  renew_again-le renew h (some e) s = again (renew s) (h s)
    where
      again :
          (r : Option Error × S)
          → renewals r.1 ≡ suc (renewals s)
          → renewals (renew_last r).1 ≤ renewals s + 1
      again (none, s') h = omega (arith, h)
      again (some e'', s') h = omega (arith, h)

  renew_twice-le :
      (renew : S → Option Error × S)
      → ((s : S) → renewals (renew s).1 ≡ suc (renewals s))
      → (s : S) → renewals (renew_twice renew s).1 ≤ renewals s + 2
  unfolding renew_twice
  renew_twice-le renew h s = omega (arith, renew_again-le renew h (renew s).0 (renew s).1, h s)

  renewing-StepWithin :
      (o : Option (S → Option Error × S)) (curve : List ℕ) (c : Context T) (d : Option Object)
      (s : S) (errs : Error)
      → client.renew ≡ o
      → StepWithin (renewals s + 2) (renewing client o curve c d s errs)
  renewing-StepWithin none curve c d s errs h = omega arith
  renewing-StepWithin (some renew) curve c d s errs h =
      after (renew_twice renew s) (renew_twice-le renew (counts renew h) s)
    where
      after :
          (r : Bool × S)
          → renewals r.1 ≤ renewals s + 2
          → StepWithin (renewals s + 2) (after_renewal client curve c d errs r)
      after (true, s') h = omega (arith, h)
      after (false, s') h = h

  refused-StepWithin :
      (renewed : Bool) (curve : List ℕ) (c : Context T) (o : Option Object) (s : S) (status : ℕ)
      (e : Error ⊎ Error)
      → StepWithin (renewals s + left renewed) (refused client renewed curve c o s status e)
  refused-StepWithin renewed curve c o s status (inl e) = omega arith
  refused-StepWithin true curve c o s status (inr errs) = omega arith
  refused-StepWithin false curve c o s status (inr errs) = by (eqb status 403 || eqb status 401)
    where
      by :
          (b : Bool)
          → StepWithin (renewals s + 2) (
              if b
              then renewing client client.renew curve c o s errs
              else finish none (some errs) c o s)
      by true = renewing-StepWithin client.renew curve c o s errs refl
      by false = omega arith

  succeeded-StepWithin :
      (renewed : Bool) (r : Response Body) (c : Context T) (o : Option Object) (s : S)
      (is_empty : Bool)
      → StepWithin (renewals s + left renewed) (succeeded client r c o s is_empty)
  succeeded-StepWithin renewed r c o s true = omega arith
  succeeded-StepWithin renewed r c none s false = omega arith
  succeeded-StepWithin renewed r c (some o) s false = by (client.decode r o)
    where
      by :
          (d : Option Error × Object)
          → StepWithin (renewals s + left renewed) (decoded client r c s d)
      by (none, o) = omega arith
      by (some e, o) = omega arith

  read_response-StepWithin :
      (renewed : Bool) (curve : List ℕ) (c : Context T) (o : Option Object) (s : S)
      (r : Response Body)
      → StepWithin (renewals s + left renewed) (read_response client renewed curve c o s r)
  read_response-StepWithin renewed curve c o s r = by (ltb r.status 200 || leb 300 r.status)
    where
      by :
          (b : Bool)
          → StepWithin (renewals s + left renewed) (
              if b
              then refused client renewed curve c o s r.status (client.decode_errors r)
              else succeeded client r c o s (eqb r.status 204 || r.is_empty))
      by true = refused-StepWithin renewed curve c o s r.status (client.decode_errors r)
      by false = succeeded-StepWithin renewed r c o s _

  -- No round takes more renewals than are left.
  receive-StepWithin :
      (renewed : Bool) (last : Option Error) (curve : List ℕ) (c : Context T) (o : Option Object)
      (s : S) (reply : Reply Body)
      → StepWithin (renewals s + left renewed) (receive client renewed last curve c o s reply)
  unfolding receive after_fault
  receive-StepWithin renewed last curve c o s (failed canceled text) = omega arith
  receive-StepWithin renewed last curve c o s (failed deadline_exceeded text) = omega arith
  receive-StepWithin renewed last curve c o s (failed end_of_input text) = omega arith
  receive-StepWithin renewed last curve c o s (failed (network reset) text) = omega arith
  receive-StepWithin renewed last curve c o s (failed untrusted text) = omega arith
  receive-StepWithin renewed last curve c o s (failed other text) = omega arith
  receive-StepWithin renewed last curve c o s (responded r) = by (retried_status r.status)
    where
      by :
          (status : Option (Error × Bool))
          → StepWithin
              (renewals s + left renewed)
              (after_status client renewed curve c o s r status)
      by (some (e, strong)) = omega arith
      by none = read_response-StepWithin renewed curve (read_headers client.atoi r.headers c) o s r

  unless_given_up-SentWithin :
      (m : ℕ) (c : Context T) (o : Option Object) (waits : List ℕ) (s : S)
      (next : ℕ → Sent T Body Object S) (v : Verdict client)
      → renewals s ≤ m
      → ((d : ℕ) → SentWithin m (next d))
      → SentWithin m (unless_given_up client c o waits s next v)
  unless_given_up-SentWithin m c o waits s next (give_up e) h later = h
  unless_given_up-SentWithin m c o waits s next (wait d) h later = later d

  end_round-SentWithin :
      (m deadline try : ℕ) (o : Option Object) (waits : List ℕ)
      (next : Error → List ℕ → Bool → Context T → S → ℕ → Sent T Body Object S)
      (step : Step T Body Object S)
      → StepWithin m step
      → ((e : Error) (curve : List ℕ) (renewed : Bool) (c : Context T) (s : S) (d : ℕ)
          → renewals s + left renewed ≤ m
          → SentWithin m (next e curve renewed c s d))
      → SentWithin m (end_round client deadline try o waits next step)
  end_round-SentWithin m deadline try o waits next (finish r e c o' s) h later = h
  end_round-SentWithin m deadline try o waits next (retry e curve renewed c s) h later =
      unless_given_up-SentWithin m c o waits s _ _ (omega (arith, h))
        λ d. later e curve renewed c s d h

  with_request-SentWithin :
      (m : ℕ) (c : Context T) (o : Option Object) (waits : List ℕ) (s : S)
      (next : Request → Sent T Body Object S) (request : Result Request)
      → renewals s ≤ m
      → ((request : Request) → SentWithin m (next request))
      → SentWithin m (with_request client c o waits s next request)
  with_request-SentWithin m c o waits s next (ok request) h later = later request
  with_request-SentWithin m c o waits s next (err e) h later = h
  with_request-SentWithin m c o waits s next panic h later = tt

  send_loop-SentWithin :
      (m deadline timeout : ℕ) (o : Option Object) (fuel try : ℕ) (last : Option Error)
      (renewed : Bool) (curve : List ℕ) (c : Context T) (waits : List ℕ) (s : S)
      → renewals s + left renewed ≤ m
      → SentWithin m (send_loop client deadline timeout o fuel try last renewed curve c waits s)
  unfolding send_loop
  send_loop-SentWithin m deadline timeout o zero try last renewed curve c waits s h =
      omega (arith, h)
  send_loop-SentWithin m deadline timeout o (suc fuel) try last renewed curve c waits s h =
      let next = λ (e : Error) (curve : List ℕ) (renewed : Bool) (c : Context T) (s : S) (d : ℕ).
        send_loop client deadline timeout o fuel (suc try) (some e) renewed curve c (d ∷ waits) s in
      let step = λ (request : Request).
        receive client renewed last curve c o (client.perform request s).1
          (client.perform request s).0 in
      with_request-SentWithin m c o waits s
        (λ request. end_round client deadline try o waits next (step request))
        (client.new_request timeout c s) (omega (arith, h))
        λ request.
          end_round-SentWithin m deadline try o waits next (step request)
            (StepWithin-le (step request)
              (receive-StepWithin renewed last curve c o (client.perform request s).1
                (client.perform request s).0)
              (omega (arith, h, performs request s)))
            λ e curve renewed c s d h.
              send_loop-SentWithin m deadline timeout o fuel (suc try) (some e) renewed curve c
                (d ∷ waits) s h

  with_timeout-SentWithin :
      (m : ℕ) (next : ℕ → Sent T Body Object S) (timeout : Result ℕ)
      → ((t : ℕ) → SentWithin m (next t))
      → SentWithin m (with_timeout client next timeout)
  with_timeout-SentWithin m next (ok t) h = h t
  with_timeout-SentWithin m next (err e) h = tt
  with_timeout-SentWithin m next panic h = tt

  -- When a call of the renewal counts as one and a request as none, `send` renews the token at most
  -- twice, whatever the server answers.
  pub send-SentWithin :
      (deadline : Option ℕ) (now fuel : ℕ) (c : Context T) (o : Option Object) (s : S)
      → SentWithin (renewals s + 2) (send client deadline now fuel c o s)
  unfolding send
  send-SentWithin deadline now fuel c o s =
      with_timeout-SentWithin (renewals s + 2) _
        (sub_context_timeout c.retry_ratio (deadline_or deadline now) now)
        λ t.
          send_loop-SentWithin (renewals s + 2) (deadline_or deadline now) t o fuel 0 none false _ c
            [] s (omega arith)
