-- ===== src/Mongo/Retry/Attempts.antt =====
-- How often `RunQuery` tries, how long it waits, and what it returns.
use manipulate.Prelude.{
  All-all_pass, leb, ℕ, zero, suc, ◌+◌, ◌≤◌, ◌<◌, ◌≡◌, ◌≢◌, refl, ◌∙◌, ap, Bool, true, false,
  Option, none, some, List, [], ◌∷◌, arith, length, All,
}
use manipulate.Errors.{Error, is_cannot_communicate_error}
use manipulate.Backoff.{next_with_curve-le}
use manipulate.Mongo.Failures.{Driver, handle_query_error}
use manipulate.Mongo.Retry.{
  Answer, success, failure, Outcome, returned, running, World, Round, stop, wait, retry_error,
  unless_done, unless_refused, after_try, default_backoff_curve, run_query, end_round, after_error,
  after_answer,
}

abbrev ten_seconds : ℕ
ten_seconds = 10_000_000_000

abbrev AreShort : List ℕ → Type 0
AreShort waits = All (λ d. d ≤ ten_seconds) waits

-- The outcome is a return after at most so many waits, each of ten seconds at most.
abbrev pub ReturnsWithin : {Out S : Type 0} → ℕ → Outcome Out S → Type 0
ReturnsWithin n (returned out e waits s) = (length waits ≤ n) × AreShort waits
ReturnsWithin n (running s) = ⊥

-- Not the error of a failed communication.
abbrev IsQuiet : Option Error → Type 0
IsQuiet none = Unit
IsQuiet (some e) = is_cannot_communicate_error e ≡ false

abbrev IsQuietOutcome : {Out S : Type 0} → Outcome Out S → Type 0
IsQuietOutcome (returned out e waits s) = IsQuiet e
IsQuietOutcome (running s) = Unit

module _ (world : World) where
  default_curve-short : AreShort default_backoff_curve
  default_curve-short =
      All-all_pass {P = λ d. d ≤ ten_seconds} (λ d. leb d ten_seconds) (λ d h. ground (arith, h))
        default_backoff_curve refl

  abbrev IsShortWait : Round → Type 0
  IsShortWait (stop e) = Unit
  IsShortWait (wait d) = d ≤ ten_seconds

  unless_done-short : (try : ℕ) (e : Option Error) → IsShortWait (unless_done world try e)
  unless_done-short try (some e) = tt
  unless_done-short try none =
      next_with_curve-le try world.deadline default_backoff_curve (world.now try) ten_seconds
        default_curve-short

  unless_refused-short : (try : ℕ) (e : Option Error) → IsShortWait (unless_refused world try e)
  unless_refused-short try (some e) = tt
  unless_refused-short try none = unless_done-short try (world.done try)

  after_try-short : (try : ℕ) (e : Error) → IsShortWait (after_try world try e)
  unfolding after_try
  after_try-short try e = unless_refused-short try (retry_error world try e)

  abbrev Stops : Round → Type 0
  Stops (stop e) = Unit
  Stops (wait d) = ⊥

  unless_refused-done :
      (try : ℕ) (e : Option Error) {end : Error}
      → world.done try ≡ some end
      → Stops (unless_refused world try e)
  unless_refused-done try (some e) d = tt
  unless_refused-done try none d = done_stops (world.done try) d
    where
      done_stops : (o : Option Error) {end : Error} → o ≡ some end → Stops (unless_done world try o)
      done_stops none d = cc d
      done_stops (some e) d = tt

  after_try-done :
      (try : ℕ) (e : Error) {end : Error}
      → world.done try ≡ some end
      → Stops (after_try world try e)
  unfolding after_try
  after_try-done try e d = unless_refused-done try (retry_error world try e) d

  short_wait : (r : Round) (d : ℕ) → IsShortWait r → r ≡ wait d → d ≤ ten_seconds
  short_wait (stop e) d h w = cc w
  short_wait (wait d') d h w = rw (wait_injective w) at h
    where
      wait_injective : {x y : ℕ} → wait x ≡ wait y → x ≡ y
      wait_injective h = cc h

  no_wait : (r : Round) (d : ℕ) → Stops r → r ≢ wait d
  no_wait (stop e) d h w = cc w
  no_wait (wait d') d h w = h

module _ {Out S : Type 0} (driver : Driver) (world : World) where
  -- What holds of the returns and of the later rounds holds of a round.
  module _ (P : Outcome Out S → Type 0) (waits : List ℕ) (s : S) (next : ℕ → Outcome Out S)
      (returns : (out : Option Out) (e : Option Error) → P (returned out e waits s)) where
    end_round-keeps :
        (r : Round)
        → ((d : ℕ) → r ≡ wait d → P (next d))
        → P (end_round driver world waits s next r)
    end_round-keeps (stop e) later = returns none (some e)
    end_round-keeps (wait d) later = later d refl

    after_error-keeps :
        (try : ℕ) (out : Out) (e : Error) (retried : Bool)
        → ((d : ℕ) → after_try world try e ≡ wait d → P (next d))
        → P (after_error driver world try waits out s next e retried)
    after_error-keeps try out e false later = returns (some out) (some e)
    after_error-keeps try out e true later = end_round-keeps (after_try world try e) later

    after_answer-keeps :
        (try : ℕ) (answer : Answer Out)
        → ((e : Error) (d : ℕ) → after_try world try e ≡ wait d → P (next d))
        → P (after_answer driver world try waits s next answer)
    after_answer-keeps try (success out) later = returns (some out) none
    after_answer-keeps try (failure out f) later =
        after_error-keeps try out _ _ (later (handle_query_error driver f))

  module _ (operation : ℕ → S → Answer Out × S) (n : ℕ) {end : Error}
      (ended : world.done n ≡ some end) where
    -- A try that is waited after comes before the context's end.
    waited-before :
        (try : ℕ) (e : Error) (d : ℕ) → try ≤ n → after_try world try e ≡ wait d → try < n
    waited-before try e d a w = omega (arith, a, not_last)
      where
        not_last : try ≢ n
        not_last same =
            no_wait world _ d (after_try-done world try e (ap world.done same ∙ ended)) w

    run_query-within :
        (fuel try : ℕ) (waits : List ℕ) (s : S)
        → try ≤ n
        → n < try + fuel
        → length waits ≤ try
        → AreShort waits
        → ReturnsWithin n (run_query driver world operation fuel try waits s)
    unfolding run_query
    run_query-within zero try waits s a b l h = absurd (omega arith)
    run_query-within (suc fuel) try waits s a b l h =
        after_answer-keeps (ReturnsWithin n) waits _ _ (λ out e. (omega (arith, l, a), h)) try _
          λ e d w.
            run_query-within fuel (suc try) (d ∷ waits) _ (waited-before try e d a w)
              (omega (arith, b)) (omega (arith, l))
              (short_wait world _ d (after_try-short world try e) w, h)

  -- When the context has ended after try `n` at the latest, fuel for `n + 1` tries is enough:
  -- `RunQuery` returns, after at most `n` waits of ten seconds at most each, whatever the operation
  -- answers.
  pub run_query-ReturnsWithin :
      (operation : ℕ → S → Answer Out × S) (n fuel : ℕ) (s : S) {end : Error}
      → world.done n ≡ some end
      → n < fuel
      → ReturnsWithin n (run_query driver world operation fuel 0 [] s)
  run_query-ReturnsWithin operation n fuel s ended enough =
      run_query-within operation n ended fuel 0 [] s (omega arith) (omega (arith, enough))
        (omega arith) tt

  module _ (retries : (try : ℕ) (e : Error) → retry_error world try e ≡ none) where
    unless_done-IsQuiet :
        (waits : List ℕ) (s : S) (next : ℕ → Outcome Out S)
        → ((d : ℕ) → IsQuietOutcome (next d))
        → (try : ℕ) (o : Option Error)
        → IsQuietOutcome (end_round driver world waits s next (unless_done world try o))
    unfolding is_cannot_communicate_error
    unless_done-IsQuiet waits s next later try (some e) = refl
    unless_done-IsQuiet waits s next later try none = later _

    after_error-IsQuiet :
        (try : ℕ) (waits : List ℕ) (out : Out) (s : S) (next : ℕ → Outcome Out S) (e : Error)
        (retried : Bool)
        → is_cannot_communicate_error e ≡ retried
        → ((d : ℕ) → IsQuietOutcome (next d))
        → IsQuietOutcome (after_error driver world try waits out s next e retried)
    unfolding after_try
    after_error-IsQuiet try waits out s next e false same later = same
    after_error-IsQuiet try waits out s next e true same later =
        rw (retries try e) (unless_done-IsQuiet waits s next later try (world.done try))

    after_answer-IsQuiet :
        (try : ℕ) (waits : List ℕ) (s : S) (next : ℕ → Outcome Out S) (answer : Answer Out)
        → ((d : ℕ) → IsQuietOutcome (next d))
        → IsQuietOutcome (after_answer driver world try waits s next answer)
    after_answer-IsQuiet try waits s next (success out) later = tt
    after_answer-IsQuiet try waits s next (failure out f) later =
        after_error-IsQuiet try waits out s next _ _ refl later

  -- When no retry function refuses a retry, `RunQuery` returns no ErrCannotCommunicate: at the
  -- context's end it returns an ErrCannotExecuteQuery.
  run_query-IsQuiet :
      (operation : ℕ → S → Answer Out × S)
      → ((try : ℕ) (e : Error) → retry_error world try e ≡ none)
      → (fuel try : ℕ) (waits : List ℕ) (s : S)
      → IsQuietOutcome (run_query driver world operation fuel try waits s)
  unfolding run_query
  run_query-IsQuiet operation retries zero try waits s = tt
  run_query-IsQuiet operation retries (suc fuel) try waits s =
      after_answer-IsQuiet retries try waits _ _ _
        λ d. run_query-IsQuiet operation retries fuel (suc try) (d ∷ waits) _
