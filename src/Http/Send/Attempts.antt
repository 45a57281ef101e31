-- ===== src/Http/Send/Attempts.antt =====
-- How often `send` tries.
use manipulate.Prelude.{
  ℕ, zero, suc, ◌+◌, ◌≤◌, ◌<◌, ◌≡◌, ◌≢◌, refl, ◌∙◌, ap, Bool, true, false, Option, none, some, List,
  [], ◌∷◌, arith, length, ◌⊎◌, inl, inr, if◌then◌else◌,
}
use manipulate.Context.{Types, Context}
use manipulate.Errors.{Error, Result, ok, err, panic}
use manipulate.Http.Exchange.{Client, Response, Request, Step, finish, retry, receive}
use manipulate.Http.Send.{
  Sent, sent, crashed, sending, Verdict, give_up, wait, unless_refused, after_retry, retry_error,
  unless_given_up, end_round, with_request, send_loop, with_timeout, send, sub_context_timeout,
  deadline_or,
}

module _ {T : Types} {Body Object S : Type 0} where
  -- The end is a return after at most so many waits, or a panic.
  abbrev pub EndsWithin : ℕ → Sent T Body Object S → Type 0
  EndsWithin n (sent r e c o waits s) = length waits ≤ n
  EndsWithin n crashed = Unit
  EndsWithin n (sending s) = ⊥

module _ {T : Types} {Body Object S : Type 0} (client : Client T Body Object S) where
  abbrev Stops : Verdict client → Type 0
  Stops (give_up e) = Unit
  Stops (wait d) = ⊥

  no_wait : (v : Verdict client) (d : ℕ) → Stops v → v ≢ wait d
  no_wait (give_up e) d h w = cc w
  no_wait (wait d') d h w = h

  unless_refused-Stops :
      (try deadline : ℕ) (curve : List ℕ) (e : Error) (refusal : Option Error)
      → client.is_done try ≡ true
      → Stops (unless_refused client try deadline curve e refusal)
  unless_refused-Stops try deadline curve e (some refusal) h = tt
  unless_refused-Stops try deadline curve e none h = rw h tt

  -- There is no wait after the context's end, nor without the automatic retry.
  after_retry-Stops :
      (try deadline : ℕ) (curve : List ℕ) (c : Context T) (e : Error)
      → (client.is_done try ≡ true) ⊎ (client.disable_auto_retry ≡ true)
      → Stops (after_retry client try deadline curve c e)
  unfolding after_retry
  after_retry-Stops try deadline curve c e (inr h) = rw h tt
  after_retry-Stops try deadline curve c e (inl h) =
      disabled_or _ client.disable_auto_retry
        (unless_refused-Stops try deadline curve e (retry_error client c.retry_func try e) h)
    where
      disabled_or : (v : Verdict client) (b : Bool) → Stops v → Stops (if b then give_up e else v)
      disabled_or v true h = tt
      disabled_or v false h = h

  -- What holds of the returns and of the later rounds holds of a round.
  module _ (P : Sent T Body Object S → Type 0) (waits : List ℕ)
      (returns : (r : Option (Response Body)) (e : Option Error) (c : Context T) (o : Option Object)
          (s : S)
        → P (sent r e c o waits s))
      (panics : P crashed) where
    unless_given_up-keeps :
        (c : Context T) (o : Option Object) (s : S) (next : ℕ → Sent T Body Object S)
        (v : Verdict client)
        → ((d : ℕ) → v ≡ wait d → P (next d))
        → P (unless_given_up client c o waits s next v)
    unless_given_up-keeps c o s next (give_up e) later = returns none (some e) c o s
    unless_given_up-keeps c o s next (wait d) later = later d refl

    end_round-keeps :
        (deadline try : ℕ) (o : Option Object)
        (next : Error → List ℕ → Bool → Context T → S → ℕ → Sent T Body Object S)
        (step : Step T Body Object S)
        → ((e : Error) (curve : List ℕ) (renewed : Bool) (c : Context T) (s : S) (d : ℕ)
            → after_retry client try deadline curve c e ≡ wait d
            → P (next e curve renewed c s d))
        → P (end_round client deadline try o waits next step)
    end_round-keeps deadline try o next (finish r e c o' s) later = returns r e c o' s
    end_round-keeps deadline try o next (retry e curve renewed c s) later =
        unless_given_up-keeps c o s _ _ (later e curve renewed c s)

    with_request-keeps :
        (c : Context T) (o : Option Object) (s : S) (next : Request → Sent T Body Object S)
        (request : Result Request)
        → ((request : Request) → P (next request))
        → P (with_request client c o waits s next request)
    with_request-keeps c o s next (ok request) later = later request
    with_request-keeps c o s next (err e) later = returns none (some e) c o s
    with_request-keeps c o s next panic later = panics

  module _ (deadline timeout n : ℕ) (o : Option Object)
      (ends : (client.is_done n ≡ true) ⊎ (client.disable_auto_retry ≡ true) × (n ≡ 0)) where
    waited-before :
        (try : ℕ) (curve : List ℕ) (c : Context T) (e : Error) (d : ℕ)
        → try ≤ n
        → after_retry client try deadline curve c e ≡ wait d
        → try < n
    waited-before try curve c e d a w = omega (arith, a, not_last ends)
      where
        not_last :
            ((client.is_done n ≡ true) ⊎ (client.disable_auto_retry ≡ true) × (n ≡ 0)) → try ≢ n
        not_last (inl h) same =
            no_wait _ d
              (after_retry-Stops try deadline curve c e (inl (ap client.is_done same ∙ h))) w
        not_last (inr h) same = no_wait _ d (after_retry-Stops try deadline curve c e (inr h.0)) w

    send_loop-within :
        (fuel try : ℕ) (last : Option Error) (renewed : Bool) (curve : List ℕ) (c : Context T)
        (waits : List ℕ) (s : S)
        → try ≤ n
        → n < try + fuel
        → length waits ≤ try
        → EndsWithin n (send_loop client deadline timeout o fuel try last renewed curve c waits s)
    unfolding send_loop
    send_loop-within zero try last renewed curve c waits s a b l = absurd (omega arith)
    send_loop-within (suc fuel) try last renewed curve c waits s a b l =
        let next = λ (e : Error) (curve : List ℕ) (renewed : Bool) (c : Context T) (s : S) (d : ℕ).
          send_loop client deadline timeout o fuel (suc try) (some e) renewed curve c (d ∷ waits)
            s in
        let step = λ (request : Request).
          receive client renewed last curve c o (client.perform request s).1
            (client.perform request s).0 in
        with_request-keeps (EndsWithin n) waits (λ r e c o s. omega (arith, l, a)) tt c o s
          (λ request. end_round client deadline try o waits next (step request))
          (client.new_request timeout c s)
          λ request.
            end_round-keeps (EndsWithin n) waits (λ r e c o s. omega (arith, l, a)) tt deadline try
              o next (step request)
              λ e curve renewed c s d w.
                send_loop-within fuel (suc try) (some e) renewed curve c (d ∷ waits) s
                  (waited-before try curve c e d a w) (omega (arith, b)) (omega (arith, l))

  with_timeout-EndsWithin :
      (n : ℕ) (next : ℕ → Sent T Body Object S) (timeout : Result ℕ)
      → ((t : ℕ) → EndsWithin n (next t))
      → EndsWithin n (with_timeout client next timeout)
  with_timeout-EndsWithin n next (ok t) h = h t
  with_timeout-EndsWithin n next (err e) h = tt
  with_timeout-EndsWithin n next panic h = tt

  -- When the context is done after try `n` at the latest, fuel for `n + 1` tries is enough: `send`
  -- returns after at most `n` waits. Without the automatic retry it returns after no wait, so that
  -- the request is sent at most once.
  pub send-EndsWithin :
      (deadline : Option ℕ) (now n fuel : ℕ) (c : Context T) (o : Option Object) (s : S)
      → (client.is_done n ≡ true) ⊎ (client.disable_auto_retry ≡ true) × (n ≡ 0)
      → n < fuel
      → EndsWithin n (send client deadline now fuel c o s)
  unfolding send
  send-EndsWithin deadline now n fuel c o s ends enough =
      with_timeout-EndsWithin n _ (sub_context_timeout c.retry_ratio (deadline_or deadline now) now)
        λ t.
          send_loop-within (deadline_or deadline now) t n o ends fuel 0 none false _ c [] s
            (omega arith) (omega (arith, enough)) (omega arith)
