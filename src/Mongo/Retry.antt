-- ===== src/Mongo/Retry.antt =====
-- manipmongo/helpers.go: `RunQuery`. `S` is what the operation may change. What the operation
-- answers, the retry functions and the context's end are parameters; `now` is the time of a try's
-- end. The loop takes fuel; `running` means that it ran out.
pub mod Attempts
use manipulate.Prelude.{
  ℕ, zero, suc, ◌+◌, Bool, true, false, Option, none, some, List, [], ◌∷◌, if◌then◌else◌,
}
use manipulate.Errors.{Error, typed, cannot_execute_query, is_cannot_communicate_error}
use manipulate.Backoff.{next_with_curve}
use manipulate.Mongo.Failures.{Failure, Driver, handle_query_error}

-- What the operation answers: a value, or a value and an error.
pub data Answer (Out : Type 0) : Type 0 where
  success : Out → Answer Out
  failure : Out → Failure → Answer Out

-- How `RunQuery` ends: what it returns, where nil is `none`, and the waits between the tries, the
-- last one first.
pub data Outcome (Out S : Type 0) : Type 0 where
  returned : Option Out → Option Error → List ℕ → S → Outcome Out S
  running : S → Outcome Out S

-- The function of the context, or the default one, if there is one: from the try and its error.
pub record World : Type 0 where
  pub retry_func : Option (ℕ → Error → Option Error)
  pub default_retry_func : Option (ℕ → Error → Option Error)
  pub done : ℕ → Option Error
  pub deadline : Option ℕ
  pub now : ℕ → ℕ

-- defaultBackoffCurve of manipmongo/backoff.go, in nanoseconds.
abbrev pub default_backoff_curve : List ℕ
default_backoff_curve =
    0 ∷ 50_000_000 ∷ 100_000_000 ∷ 300_000_000 ∷ 1_000_000_000 ∷ 5_000_000_000 ∷ 10_000_000_000 ∷ []

abbrev pub asked : Option (ℕ → Error → Option Error) → ℕ → Error → Option Error
asked none try e = none
asked (some f) try e = f try e

abbrev pub retry_error : World → ℕ → Error → Option Error
retry_error world try e = elim world.retry_func [
  | some f ↦ f try e
  | none ↦ asked world.default_retry_func try e
]

-- The end of a round: an error, or the wait for the next try.
pub data Round : Type 0 where
  stop : Error → Round
  wait : ℕ → Round

abbrev pub unless_done : World → ℕ → Option Error → Round
unless_done world try (some e) = stop (typed cannot_execute_query e)
unless_done world try none =
    wait (next_with_curve try world.deadline default_backoff_curve (world.now try))

abbrev pub unless_refused : World → ℕ → Option Error → Round
unless_refused world try (some e) = stop e
unless_refused world try none = unless_done world try (world.done try)

-- After a try that failed to communicate.
unfoldable pub after_try : World → ℕ → Error → Round
unfolding next_with_curve
after_try world try e = unless_refused world try (retry_error world try e)

module _ {Out S : Type 0} (driver : Driver) (world : World) where
  -- The ends of a round of the loop; `next` are the later rounds, after a wait.
  abbrev pub end_round : List ℕ → S → (ℕ → Outcome Out S) → Round → Outcome Out S
  end_round waits s next (stop e) = returned none (some e) waits s
  end_round waits s next (wait d) = next d

  abbrev pub after_error : ℕ → List ℕ → Out → S → (ℕ → Outcome Out S) → Error → Bool → Outcome Out S
  after_error try waits out s next e false = returned (some out) (some e) waits s
  after_error try waits out s next e true = end_round waits s next (after_try world try e)

  abbrev pub after_answer : ℕ → List ℕ → S → (ℕ → Outcome Out S) → Answer Out → Outcome Out S
  after_answer try waits s next (success out) = returned (some out) none waits s
  after_answer try waits s next (failure out f) =
      after_error try waits out s next (handle_query_error driver f)
        (is_cannot_communicate_error (handle_query_error driver f))

  unfoldable pub run_query : (ℕ → S → Answer Out × S) → ℕ → ℕ → List ℕ → S → Outcome Out S
  unfolding after_try handle_query_error
  run_query operation zero try waits s = running s
  run_query operation (suc fuel) try waits s =
      let (answer, s') = operation try s in
      after_answer try waits s' (λ d. run_query operation fuel (suc try) (d ∷ waits) s') answer
