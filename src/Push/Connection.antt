-- ===== src/Push/Connection.antt =====
-- internal/push/push.go: `connect`. What wsc.Connect answers and whether the context is done are
-- given for each try; `taken` is how many errors were read from the channel before the try reports
-- its own. The loop takes fuel; `connecting` means that it ran out, before the try of this number.
pub mod Made
use manipulate.Prelude.{
  ℕ, zero, suc, ◌≤◌, ◌<◌, ◌≡◌, Bool, true, false, Option, none, some, List, [], ◌∷◌, ◌++◌,
  if◌then◌else◌, ltb, length, length-append,
}
use manipulate.Errors.{Error}
use manipulate.Push.{
  Subscription, Status, initial_connection, initial_connection_failure, reconnection,
  reconnection_failure, final_disconnection, error_ch_size, publish_status, next_backoff,
}

-- What wsc.Connect answers: a connection, an error without a response, or an error with a response,
-- whose status may be that of switching protocols, and whose body is decoded into an error.
pub data Dialed : Type 0 where
  connected : Dialed
  unanswered : Error → Dialed
  answered : Bool → Error → Dialed

pub record Surroundings : Type 0 where
  pub dial : ℕ → Dialed
  pub is_done : ℕ → Bool
  pub taken : ℕ → ℕ

-- How `connect` ends: with a connection, after the waits, or it blocks, since nothing takes the
-- errors of a full channel.
pub data Connection (Event Config Data : Type 0) : Type 0 where
  made : List ℕ → Subscription Event Config Data → Connection Event Config Data
  blocked : Subscription Event Config Data → Connection Event Config Data
  connecting : ℕ → List ℕ → Subscription Event Config Data → Connection Event Config Data

abbrev pub drop {ℓ} : {A : Type ℓ} → ℕ → List A → List A
drop zero xs = xs
drop (suc n) [] = []
drop (suc n) (x ∷ xs) = drop n xs

abbrev connection_status : Bool → Status
connection_status true = initial_connection
connection_status false = reconnection

abbrev pub failure_status : Bool → Status
failure_status true = initial_connection_failure
failure_status false = reconnection_failure

module _ {Event Config Data : Type 0} (surroundings : Surroundings) (initial : Bool) where
  -- s.errors <- err, where `none` is a channel that stays full.
  abbrev pub send_error :
      ℕ → Error → Subscription Event Config Data → Option (Subscription Event Config Data)
  send_error taken e s =
      let left = drop taken s.errors in
      if ltb (length left) error_ch_size
      then some (record s { errors = left ++ (e ∷ []) })
      else none

  abbrev pub report :
      ℕ → Dialed → Subscription Event Config Data → Option (Subscription Event Config Data)
  report taken connected s = some s
  report taken (unanswered e) s = send_error taken e s
  report taken (answered true e) s = some s
  report taken (answered false e) s = send_error taken e s

  -- The wait, or the status at the context's end, after which the loop goes on.
  abbrev pub after_wait : Bool → Subscription Event Config Data → Subscription Event Config Data
  after_wait true s = publish_status final_disconnection s
  after_wait false s = s

  abbrev pub after_report :
      ℕ
      → (Subscription Event Config Data → Connection Event Config Data)
      → Subscription Event Config Data
      → Option (Subscription Event Config Data)
      → Connection Event Config Data
  after_report try next s none = blocked s
  after_report try next s (some s') = next (after_wait (surroundings.is_done try) s')

  abbrev pub after_dial :
      ℕ
      → List ℕ
      → (Subscription Event Config Data → Connection Event Config Data)
      → Dialed
      → Subscription Event Config Data
      → Connection Event Config Data
  after_dial try waits next connected s = made waits (publish_status (connection_status initial) s)
  after_dial try waits next d s =
      after_report try next (publish_status (failure_status initial) s)
        (report (surroundings.taken try) d (publish_status (failure_status initial) s))

  unfoldable pub connect :
      ℕ → ℕ → List ℕ → Subscription Event Config Data → Connection Event Config Data
  unfolding publish_status next_backoff
  connect zero try waits s = connecting try waits s
  connect (suc fuel) try waits s =
      after_dial try waits (connect fuel (suc try) (next_backoff try ∷ waits))
        (surroundings.dial try) s

  -- No connection was made: the tries up to the one of this number were made, with a wait after
  -- each of them, or a report waits for room in a channel that is full.
  abbrev pub IsUnmade : ℕ → ℕ → Connection Event Config Data → Type 0
  IsUnmade last waited (made waits s) = ⊥
  IsUnmade last waited (blocked s) =
      (try : ℕ) × (error_ch_size ≤ length (drop (surroundings.taken try) s.errors))
  IsUnmade last waited (connecting try waits s) = (try ≡ last) × (length waits ≡ waited)
