-- ===== src/Examples/Basics.antt =====
-- Errors, contexts and waits.
use manipulate.Prelude.{◌≡◌, refl, ◌≤◌, ◌<◌, ◌+◌, ◌/◌, ◌∷◌, [], none, some, false, arith}
use manipulate.Prelude.Int.{pos}
use manipulate.Errors.{Kind, typed, foreign, wrapped, message, is_locked_error}
use manipulate.Context.{derive}
use manipulate.Context.Choices.{option_of, page, parent, idempotency_key, derive-chosen}
use manipulate.Prelude.{map}
use manipulate.Backoff.{next_with_curve, next_with_curve-deadline, round_second, second}
use manipulate.Examples.{request}

locked_message : message (typed Kind.locked (foreign "busy")) ≡ "Cannot communicate: busy"
unfolding message
locked_message = refl

wrapped_locked : is_locked_error (wrapped "try" (typed Kind.locked (foreign "busy"))) ≡ false
unfolding is_locked_error
wrapped_locked = refl

derive-chosen_example :
    derive
      (derive request (map option_of (page (pos 2) (pos 10) ∷ parent none ∷ [])))
      (map option_of (idempotency_key "k" ∷ []))
    ≡ derive request
        (map option_of (page (pos 2) (pos 10) ∷ parent none ∷ idempotency_key "k" ∷ []))
derive-chosen_example =
    derive-chosen (page (pos 2) (pos 10) ∷ parent none ∷ []) (idempotency_key "k" ∷ []) request
      (refl, (refl, tt))

before : round_second 1_600_000_000 < 4_000_000_000
unfolding round_second
before = omega arith

next_with_curve-deadline_example :
    (round_second 1_600_000_000
        + next_with_curve 1 (some 4_000_000_000) (1_000_000_000 ∷ 5_000_000_000 ∷ []) 1_600_000_000
      ≤ 4_000_000_000)
    × (1_600_000_000
          + next_with_curve 1
              (some 4_000_000_000)
              (1_000_000_000 ∷ 5_000_000_000 ∷ [])
              1_600_000_000
        ≤ 4_000_000_000 + second / 2)
next_with_curve-deadline_example =
    next_with_curve-deadline 1 4_000_000_000 (1_000_000_000 ∷ 5_000_000_000 ∷ []) 1_600_000_000
      before
