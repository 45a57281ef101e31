-- ===== src/Push/Listening.antt =====
-- internal/push/push.go: `listen`, by what its select takes next.
use manipulate.Prelude.{ℕ, false, Option, none, some, List, [], ◌∷◌, ◌++◌, ◌⊎◌, inl, inr, get_elem?}
use manipulate.Errors.{Error}
use manipulate.Push.{
  Subscription, disconnection, final_disconnection, filter_ch_size, try_send, publish_error,
  publish_event, publish_status,
}

-- The cases of the select; the connection is done with an error or without.
pub data Happening (Data : Type 0) : Type 0 where
  filter_ready : Happening Data
  received : Data → Happening Data
  failing : Error → Happening Data
  hung_up : Option Error → Happening Data
  context_done : Happening Data

-- Where the loop is: in the connection, at its end, or out of `listen`.
pub data Listening (Event Config Data : Type 0) : Type 0 where
  listening : Subscription Event Config Data → Listening Event Config Data
  disconnected : Subscription Event Config Data → Listening Event Config Data
  finished : Subscription Event Config Data → Listening Event Config Data

module _ {Event Config Data : Type 0} (encode : Config → Error ⊎ Data)
    (decode : Data → Error ⊎ Event) where
  -- The current filter, if there is one, is offered to the channel after a connection.
  abbrev offered : Option ℕ → Subscription Event Config Data → Subscription Event Config Data
  offered none s = s
  offered (some f) s = record s { filters = try_send filter_ch_size f s.filters }

  unfoldable pub offer_filter : Subscription Event Config Data → Subscription Event Config Data
  unfolding try_send
  offer_filter s = offered s.current_filter s

  abbrev write_filter :
      Option (Error ⊎ Data) → Subscription Event Config Data → Subscription Event Config Data
  write_filter none s = s
  write_filter (some (inl e)) s = publish_error e s
  write_filter (some (inr message)) s = record s { written = s.written ++ (message ∷ []) }

  abbrev encoded : Option Config → Option (Error ⊎ Data)
  encoded none = none
  encoded (some config) = some (encode config)

  abbrev take_filter : List ℕ → Subscription Event Config Data → Subscription Event Config Data
  take_filter [] s = s
  take_filter (f ∷ filters) s =
      write_filter (encoded (get_elem? s.configs f)) (record s { filters = filters })

  abbrev pub forward :
      Error ⊎ Event → Subscription Event Config Data → Subscription Event Config Data
  forward (inl e) s = publish_error e s
  forward (inr evt) s = publish_event evt s

  abbrev publish_if : Option Error → Subscription Event Config Data → Subscription Event Config Data
  publish_if none s = s
  publish_if (some e) s = publish_error e s

  unfoldable pub process :
      Happening Data → Subscription Event Config Data → Listening Event Config Data
  unfolding publish_error publish_event publish_status
  process filter_ready s = listening (take_filter s.filters s)
  process (received message) s = listening (forward (decode message) s)
  process (failing e) s = listening (publish_error e s)
  process (hung_up e) s = disconnected (publish_status disconnection (publish_if e s))
  process context_done s =
      finished (publish_status final_disconnection (record s { registered = false }))

  -- The processing loop, on what happens while one connection stands.
  abbrev continue_with :
      (Subscription Event Config Data → Listening Event Config Data)
      → Listening Event Config Data
      → Listening Event Config Data
  continue_with next (listening s) = next s
  continue_with next (disconnected s) = disconnected s
  continue_with next (finished s) = finished s

  unfoldable pub process_all :
      List (Happening Data) → Subscription Event Config Data → Listening Event Config Data
  unfolding process
  process_all [] s = listening s
  process_all (h ∷ hs) s = continue_with (process_all hs) (process h s)
