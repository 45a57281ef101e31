-- ===== src/Push/Connection/Made.antt =====
-- When `connect` returns.
use manipulate.Prelude.{
  ℕ, zero, suc, ◌+◌, ◌≤◌, ◌<◌, ◌≡◌, ◌≢◌, refl, ◌∙◌, ap, Bool, true, false, some, List, [], ◌∷◌,
  ◌++◌, length, length-append, arith,
}
use manipulate.Errors.{Error}
use manipulate.Push.{Subscription, error_ch_size, publish_status, next_backoff}
use manipulate.Push.Connection.{
  Dialed, connected, unanswered, answered, Surroundings, Connection, made, blocked, connecting,
  drop, failure_status, send_error, report, after_wait, after_report, after_dial, connect,
}

pub length-drop : {A : Type 0} (n : ℕ) (xs : List A) → length (drop n xs) ≤ length xs
length-drop zero xs = omega arith
length-drop (suc n) [] = omega arith
length-drop (suc n) (x ∷ xs) = omega (arith, length-drop n xs)

module _ {Event Config Data : Type 0} (surroundings : Surroundings) (initial : Bool) where
  abbrev pub IsMade : Connection Event Config Data → Type 0
  IsMade (made waits s) = Unit
  IsMade (blocked s) = ⊥
  IsMade (connecting try waits s) = ⊥

  send_error-room :
      (taken : ℕ) (e : Error) (s : Subscription Event Config Data)
      → length s.errors < error_ch_size
      → (s' : Subscription Event Config Data) × (send_error surroundings initial taken e s
          ≡ some s')
        × (length s'.errors ≤ length s.errors + 1)
  send_error-room taken e s h =
      let left = drop taken s.errors in
      let l : length left ≤ length s.errors = length-drop taken s.errors in
      (
        record s { errors = left ++ (e ∷ []) },
        ground (arith, h, l),
        omega (arith, l, length-append left (e ∷ [])),
      )

  -- The report of one error takes one place, if there is one.
  report-room :
      (taken : ℕ) (d : Dialed) (s : Subscription Event Config Data)
      → length s.errors < error_ch_size
      → (s' : Subscription Event Config Data) × (report surroundings initial taken d s ≡ some s')
        × (length s'.errors ≤ length s.errors + 1)
  report-room taken connected s h = (s, refl, omega arith)
  report-room taken (answered true e) s h = (s, refl, omega arith)
  report-room taken (unanswered e) s h = send_error-room taken e s h
  report-room taken (answered false e) s h = send_error-room taken e s h

  after_wait-errors :
      (b : Bool) (s : Subscription Event Config Data)
      → (after_wait surroundings initial b s).errors ≡ s.errors
  unfolding publish_status
  after_wait-errors true s = refl
  after_wait-errors false s = refl

  reported-IsMade :
      (try : ℕ) (next : Subscription Event Config Data → Connection Event Config Data) (d : Dialed)
      (s : Subscription Event Config Data)
      → length s.errors < error_ch_size
      → ((s' : Subscription Event Config Data)
          → length s'.errors ≤ length s.errors + 1
          → IsMade (next s'))
      → IsMade (
          after_report surroundings initial try next (publish_status (failure_status initial) s) (
            report surroundings initial
              (surroundings.taken try)
              d
              (publish_status (failure_status initial) s)))
  unfolding publish_status
  reported-IsMade try next d s h later =
      let (s', e, l) =
        report-room (surroundings.taken try) d (publish_status (failure_status initial) s) h in
      rw e (later _ (rw (after_wait-errors (surroundings.is_done try) s') l))

  after_dial-IsMade :
      (try : ℕ) (waits : List ℕ)
      (next : Subscription Event Config Data → Connection Event Config Data) (d : Dialed)
      (s : Subscription Event Config Data)
      → length s.errors < error_ch_size
      → (d ≢ connected
          → (s' : Subscription Event Config Data) → length s'.errors ≤ length s.errors + 1
          → IsMade (next s'))
      → IsMade (after_dial surroundings initial try waits next d s)
  after_dial-IsMade try waits next connected s h later = tt
  after_dial-IsMade try waits next (unanswered e) s h later =
      reported-IsMade try next (unanswered e) s h (later (λ same. cc same))
  after_dial-IsMade try waits next (answered b e) s h later =
      reported-IsMade try next (answered b e) s h (later (λ same. cc same))

  -- When the try `n` gives a connection and the channel has room for an error of each try before,
  -- `connect` returns with a connection, also if nothing reads the channel.
  pub connect-IsMade :
      (n : ℕ)
      → surroundings.dial n ≡ connected
      → (fuel try : ℕ) (waits : List ℕ) (s : Subscription Event Config Data) → try ≤ n
      → n < try + fuel
      → length s.errors + n < error_ch_size + try
      → IsMade (connect surroundings initial fuel try waits s)
  unfolding connect
  connect-IsMade n dials zero try waits s a b room = absurd (omega arith)
  connect-IsMade n dials (suc fuel) try waits s a b room =
      after_dial-IsMade try waits
        (connect surroundings initial fuel (suc try) (next_backoff try ∷ waits))
        (surroundings.dial try) s (omega (arith, room, a))
        λ ne s' l.
          connect-IsMade n dials fuel (suc try) (next_backoff try ∷ waits) s' (not_last ne)
            (omega (arith, b)) (omega (arith, room, l))
    where
      not_last : surroundings.dial try ≢ connected → suc try ≤ n
      not_last ne = omega (arith, a, other)
        where
          other : try ≢ n
          other same = ne (ap surroundings.dial same ∙ dials)
