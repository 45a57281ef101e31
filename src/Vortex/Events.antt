-- ===== src/Vortex/Events.antt =====
-- manipvortex/manipulator.go: `eventHandler`, `pushEvent`, `pushErrors`, `pushStatus` and what
-- `monitor` does with an event. The channels of a subscriber are lists with one capacity. The
-- decoding of an event's entity is part of the event: an error, or the object.
pub mod Delivery
use manipulate.Prelude.{
  ℕ, String, ◌<>◌, Bool, true, false, not, ◌&&◌, Option, none, some, List, [], ◌∷◌, ◌++◌,
  if◌then◌else◌, ltb, length, map,
}
use manipulate.Errors.{Error, foreign, message}
use manipulate.Context.{Types}
use manipulate.Vortex.Commit.{Operation, Settings, Vortex, Writer, commit_local}
use manipulate.Vortex.Subscriptions.{contains}
use manipulate.Push.{Status}

pub data EventType : Type 0 where
  creation modification deletion : EventType
  other_type : String → EventType

pub data Decoded (Object : Type 0) : Type 0 where
  undecodable : Error → Decoded Object
  entity : Object → Decoded Object

pub record Event (Object : Type 0) : Type 0 where
  pub identity : String
  pub kind : EventType
  pub decoded : Decoded Object

-- A subscriber: its filter, if one is set, as the test for what is filtered out, and what waits in
-- its channels, oldest first.
pub record Subscriber (Object : Type 0) : Type 0 where
  pub is_filtered_out : Option (String → EventType → Bool)
  pub capacity : ℕ
  pub events : List (Event Object)
  pub errors : List Error
  pub statuses : List Status

module _ {A : Type 0} where
  abbrev pub is_filtered : Option (String → EventType → Bool) → Event A → Bool
  is_filtered none evt = false
  is_filtered (some is_filtered_out) evt = is_filtered_out evt.identity evt.kind

  -- `pushEvent`, for one subscriber: a full channel drops the event.
  unfoldable pub send_event : Event A → Subscriber A → Subscriber A
  send_event evt s =
      if not (is_filtered s.is_filtered_out evt) && ltb (length s.events) s.capacity
      then record s { events = s.events ++ evt ∷ [] }
      else s

  unfoldable pub push_event : Event A → List (Subscriber A) → List (Subscriber A)
  unfolding send_event
  push_event evt subscribers = map (send_event evt) subscribers

  unfoldable pub send_error : Error → Subscriber A → Subscriber A
  send_error e s =
      if ltb (length s.errors) s.capacity then record s { errors = s.errors ++ e ∷ [] } else s

  unfoldable pub push_errors : Error → List (Subscriber A) → List (Subscriber A)
  unfolding send_error
  push_errors e subscribers = map (send_error e) subscribers

  -- `pushStatus`, likewise.
  unfoldable pub send_status : Status → Subscriber A → Subscriber A
  send_status status s =
      if ltb (length s.statuses) s.capacity
      then record s { statuses = s.statuses ++ status ∷ [] }
      else s

  unfoldable pub push_status : Status → List (Subscriber A) → List (Subscriber A)
  unfolding send_status
  push_status status subscribers = map (send_status status) subscribers

-- The operation of an event, if its type is one of the three.
abbrev pub operation_of : EventType → Option Operation
operation_of creation = some Operation.create
operation_of modification = some Operation.update
operation_of deletion = some Operation.delete
operation_of (other_type name) = none

-- `type_text` prints the type of an event.
module _ {T : Types} {Up Down : Type 0} (settings : Settings T Up Down)
    (type_text : EventType → String) where
  -- An error of a local commit counts, but for a deletion.
  abbrev event_error : Operation → EventType → Option Error → Option Error
  event_error operation kind none = none
  event_error Operation.delete kind (some e) = none
  event_error operation kind (some e) =
      some (foreign ("unable to commit event of type '" <> type_text kind <> "': " <> message e))

  abbrev pub commit_event :
      Option Operation
      → EventType
      → T.Identifiable
      → Vortex T Up Down
      → Option Error × Vortex T Up Down
  commit_event none kind object v =
      (some (foreign ("unsupported event received: " <> type_text kind)), v)
  commit_event (some operation) kind object v =
      let u = commit_local settings operation none object v in
      (event_error operation kind u.error, u.vortex)

  abbrev pub handle_decoded :
      EventType → Decoded T.Identifiable → Vortex T Up Down → Option Error × Vortex T Up Down
  handle_decoded kind (undecodable e) v =
      (some (foreign ("unable to unmarshal received event: " <> message e)), v)
  handle_decoded kind (entity object) v = commit_event (operation_of kind) kind object v

  abbrev pub handle_with :
      Option (Writer T Up)
      → Event T.Identifiable
      → Vortex T Up Down
      → Option Error × Vortex T Up Down
  handle_with none evt v = (none, v)
  handle_with (some upstream) evt v = handle_decoded evt.kind evt.decoded v

  unfoldable pub event_handler :
      Event T.Identifiable → Vortex T Up Down → Option Error × Vortex T Up Down
  event_handler evt v = handle_with settings.upstream evt v

  -- After the handler: its error goes to the subscribers, or the event.
  abbrev pub after_handler :
      Event T.Identifiable
      → List (Subscriber T.Identifiable)
      → Option Error × Vortex T Up Down
      → List (Subscriber T.Identifiable) × Vortex T Up Down
  after_handler evt subscribers (some e, v) =
      (push_errors (foreign ("unable to handle event: " <> message e)) subscribers, v)
  after_handler evt subscribers (none, v) = (push_event evt subscribers, v)

  -- What `monitor` does with an event, by the identities whose events are committed.
  unfoldable pub on_event :
      List String
      → Event T.Identifiable
      → List (Subscriber T.Identifiable)
      → Vortex T Up Down
      → List (Subscriber T.Identifiable) × Vortex T Up Down
  on_event commits evt subscribers v =
      after_handler evt subscribers
        (if contains commits evt.identity then event_handler evt v else (none, v))
