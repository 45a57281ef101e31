-- ===== src/Http/Send.antt =====
-- maniphttp/manipulator.go: `send`, the loop around one request, without the simulated failures. The
-- loop takes fuel; `sending` means that it ran out.
pub mod Attempts
pub mod Renewals
pub mod Keys
use manipulate.Prelude.{
  ℕ, zero, suc, ◌+◌, ◌-◌, ◌*◌, ◌/◌, String, Bool, true, false, ◌&&◌, ◌||◌, Option, none, some, List,
  [], ◌∷◌, ◌⊎◌, inl, inr, if◌then◌else◌, ltb, leb, eqb,
}
use manipulate.Prelude.Int.{ℤ, pos, negsuc}
use manipulate.Backoff.{next_with_curve}
use manipulate.Context.{Types, Context}
use manipulate.Errors.{
  Error, typed, foreign, cannot_communicate, cannot_execute_query, disconnected, locked,
  too_many_requests, tls, Result, ok, err, panic,
}
use manipulate.Http.Headers.{Headers, read_headers}
use manipulate.Snip.{snip}
use manipulate.Http.Exchange.{Response, Reply, Request, Client, Step, finish, retry, receive}

-- What `send` returns, with the waits between the tries, the last one first.
pub data Sent (T : Types) (Body Object S : Type 0) : Type 0 where
  sent :
      Option (Response Body)
      → Option Error
      → Context T
      → Option Object
      → List ℕ
      → S
      → Sent T Body Object S
  crashed : Sent T Body Object S
  sending : S → Sent T Body Object S

abbrev min_context_timeout : ℕ
min_context_timeout = 20_000_000_000

abbrev at_least : ℕ → ℕ
at_least t = if ltb t min_context_timeout then min_context_timeout else t

-- A division by zero panics. Go's division of a negative number rounds towards zero.
unfoldable pub sub_context_timeout : ℤ → ℕ → ℕ → Result ℕ
sub_context_timeout (pos zero) deadline now = panic
sub_context_timeout (pos (suc k)) deadline now = ok (at_least ((deadline - now) / suc k))
sub_context_timeout (negsuc k) deadline now = ok (at_least ((now - deadline) / suc k))

-- Until the deadline, or else for an hour.
abbrev pub deadline_or : Option ℕ → ℕ → ℕ
deadline_or none now = now + 3_600 * 1_000_000_000
deadline_or (some deadline) now = deadline

module _ {T : Types} {Body Object S : Type 0} (client : Client T Body Object S) where
  abbrev pub asked : Option T.RetryFunc → ℕ → Error → Option Error
  asked none try e = none
  asked (some f) try e = client.run_retry f try e

  abbrev pub retry_error : Option T.RetryFunc → ℕ → Error → Option Error
  retry_error none try e = asked client.default_retry_func try e
  retry_error (some f) try e = client.run_retry f try e

  -- Whether a retry ends the loop, and with which error, or the wait.
  pub data Verdict : Type 0 where
    give_up : Error → Verdict
    wait : ℕ → Verdict

  abbrev pub unless_refused : ℕ → ℕ → List ℕ → Error → Option Error → Verdict
  unless_refused try deadline curve e (some refusal) = give_up refusal
  unless_refused try deadline curve e none =
      if client.is_done try
      then give_up e
      else wait (next_with_curve try (some deadline) curve (client.now try))

  unfoldable pub after_retry : ℕ → ℕ → List ℕ → Context T → Error → Verdict
  unfolding next_with_curve
  after_retry try deadline curve c e =
      if client.disable_auto_retry
      then give_up e
      else unless_refused try deadline curve e (retry_error c.retry_func try e)

  abbrev pub unless_given_up :
      Context T
      → Option Object
      → List ℕ
      → S
      → (ℕ → Sent T Body Object S)
      → Verdict
      → Sent T Body Object S
  unless_given_up c o waits s next (give_up e) = sent none (some e) c o waits s
  unless_given_up c o waits s next (wait d) = next d

  -- The end of a round; `next` are the later rounds.
  abbrev pub end_round :
      ℕ
      → ℕ
      → Option Object
      → List ℕ
      → (Error → List ℕ → Bool → Context T → S → ℕ → Sent T Body Object S)
      → Step T Body Object S
      → Sent T Body Object S
  end_round deadline try dest waits next (finish r e c o s) = sent r e c o waits s
  end_round deadline try dest waits next (retry e curve renewed c s) =
      unless_given_up c dest waits s (next e curve renewed c s) (after_retry try deadline curve c e)

  -- A round with the request, if it can be made.
  abbrev pub with_request :
      Context T
      → Option Object
      → List ℕ
      → S
      → (Request → Sent T Body Object S)
      → Result Request
      → Sent T Body Object S
  with_request c o waits s next (ok request) = next request
  with_request c o waits s next (err e) = sent none (some e) c o waits s
  with_request c o waits s next panic = crashed

  unfoldable pub send_loop :
      ℕ
      → ℕ
      → Option Object
      → ℕ
      → ℕ
      → Option Error
      → Bool
      → List ℕ
      → Context T
      → List ℕ
      → S
      → Sent T Body Object S
  unfolding receive after_retry
  send_loop deadline timeout o zero try last renewed curve c waits s = sending s
  send_loop deadline timeout o (suc fuel) try last renewed curve c waits s =
      with_request c o waits s
        (λ request.
          end_round deadline try o waits
            (λ e curve renewed c s d.
              send_loop deadline timeout o fuel (suc try) (some e) renewed curve c (d ∷ waits) s)
            (receive client renewed last curve c o (client.perform request s).1
              (client.perform request s).0))
        (client.new_request timeout c s)

  abbrev pub with_timeout : (ℕ → Sent T Body Object S) → Result ℕ → Sent T Body Object S
  with_timeout next (ok timeout) = next timeout
  with_timeout next _ = crashed

  -- From the deadline of the context and the time.
  unfoldable pub send : Option ℕ → ℕ → ℕ → Context T → Option Object → S → Sent T Body Object S
  unfolding send_loop sub_context_timeout
  send deadline now fuel c o s =
      with_timeout
        (λ timeout.
          send_loop (deadline_or deadline now) timeout o fuel 0 none false client.backoff_curve c []
            s)
        (sub_context_timeout c.retry_ratio (deadline_or deadline now) now)
