-- ===== src/Backoff.antt =====
-- internal/backoff/backoff.go. Times are nanoseconds since the zero time and durations are
-- nanoseconds; the durations of a curve are not negative, as in every curve of the repository.
-- `none` is the zero deadline, and `now` is what `time.Now()` answers.
use manipulate.Prelude.{
  ℕ, zero, suc, ◌+◌, ◌-◌, ◌*◌, ◌/◌, ◌≤◌, ◌<◌, ◌&&◌, Option, none, some, List, [], ◌∷◌, arith, ltb,
  leb, if◌then◌else◌, length, get_or, All,
}

abbrev pub second : ℕ
second = 1_000_000_000

-- t.Round(time.Second), which rounds half values up.
unfoldable pub round_second : ℕ → ℕ
round_second t = (t + second / 2) / second * second

-- curve[try], or the last entry.
pick : ℕ → List ℕ → ℕ
pick try curve =
    if leb (length curve) try then get_or curve (length curve - 1) 0 else get_or curve try 0

-- The test on the deadline, with the rounded time.
before_deadline : ℕ → Option ℕ → ℕ → ℕ
before_deadline wait none now = wait
before_deadline wait (some deadline) now =
    if ltb deadline (now + wait) && ltb now deadline then deadline - now else wait

unfoldable pub next_with_curve : ℕ → Option ℕ → List ℕ → ℕ → ℕ
unfolding pick before_deadline round_second
next_with_curve try deadline [] now = 0
next_with_curve try deadline (d ∷ curve) now =
    before_deadline (pick try (d ∷ curve)) deadline (round_second now)

get_or-le : (curve : List ℕ) (i m : ℕ) → All (λ d. d ≤ m) curve → get_or curve i 0 ≤ m
get_or-le [] i m h = omega arith
get_or-le (d ∷ curve) zero m h = h.0
get_or-le (d ∷ curve) (suc i) m h = get_or-le curve i m h.1

-- The wait is never longer than a bound on the curve's entries, whatever the try, the deadline
-- and the time.
pub next_with_curve-le :
    (try : ℕ) (deadline : Option ℕ) (curve : List ℕ) (now m : ℕ)
    → All (λ d. d ≤ m) curve
    → next_with_curve try deadline curve now ≤ m
unfolding next_with_curve
next_with_curve-le try deadline [] now m h = omega arith
next_with_curve-le try deadline (d ∷ curve) now m h =
    ground (arith, get_or-le (d ∷ curve) try m h, get_or-le (d ∷ curve) (length curve) m h)

-- While the time, rounded to seconds, is before the deadline, the rounded time plus the wait does not
-- pass the deadline, and the time itself plus the wait passes it by half a second at most.
pub next_with_curve-deadline :
    (try : ℕ) (deadline : ℕ) (curve : List ℕ) (now : ℕ)
    → round_second now < deadline
    → (round_second now + next_with_curve try (some deadline) curve now ≤ deadline)
      × (now + next_with_curve try (some deadline) curve now ≤ deadline + second / 2)
unfolding next_with_curve
next_with_curve-deadline try deadline [] now h = (omega arith, omega (arith, h))
next_with_curve-deadline try deadline (d ∷ curve) now h = (ground arith, ground arith)
