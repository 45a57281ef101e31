-- ===== src/Vortex/Monitor.antt =====
-- manipvortex/manipulator.go: `monitor`, with what it does at each message of the upstream
-- subscriber; manipvortex/subscriber.go: `NewSubscriber` and `registerSubscriber`.
pub mod Resync
use manipulate.Prelude.{ℕ, String, ◌<>◌, Bool, true, false, Option, none, some, List, [], ◌∷◌, ◌++◌}
use manipulate.Errors.{Error, foreign, message}
use manipulate.Context.{Types}
use manipulate.Push.{Status, reconnection, final_disconnection}
use manipulate.Vortex.Commit.{Vortex}
use manipulate.Vortex.Events.{EventType, Event, Subscriber, push_errors, push_status, on_event}
use manipulate.Vortex.Warming.{Cache, Refreshed, refreshed, stuck, flush}

-- What the upstream subscriber gives out.
pub data Message (Object : Type 0) : Type 0 where
  event : Event Object → Message Object
  failure : Error → Message Object
  status : Status → Message Object

-- Where the goroutine is: in its loop, returned, or in a flush that does not end.
pub data Monitored (T : Types) (Up Down : Type 0) : Type 0 where
  watching : List (Subscriber T.Identifiable) → Vortex T Up Down → Monitored T Up Down
  returned : List (Subscriber T.Identifiable) → Vortex T Up Down → Monitored T Up Down
  flushing : List (Subscriber T.Identifiable) → Monitored T Up Down

-- A new subscriber has a capacity, empty channels and no filter. Without an upstream subscriber
-- there is an error.
abbrev pub fresh : {A : Type 0} → ℕ → Subscriber A
fresh queue_size = record {
  is_filtered_out = none;
  capacity = queue_size;
  events = [];
  errors = [];
  statuses = [];
}

unfoldable pub new_subscriber :
    {A : Type 0} → Bool → ℕ → List (Subscriber A) → Option Error × List (Subscriber A)
new_subscriber false queue_size subscribers = (
  some (foreign "vortex has no upstream subscriber: local subscriptions not supported"),
  subscribers,
)
new_subscriber true queue_size subscribers = (none, subscribers ++ fresh queue_size ∷ [])

module _ {T : Types} {Up Down : Type 0} (c : Cache T Up Down) (type_text : EventType → String) where
  abbrev pub after_resync :
      List (Subscriber T.Identifiable) → Refreshed T Up Down → Monitored T Up Down
  after_resync subscribers stuck = flushing subscribers
  after_resync subscribers (refreshed none v) = watching (push_status reconnection subscribers) v
  after_resync subscribers (refreshed (some e) v) =
      watching
        (push_status reconnection
          (push_errors (foreign ("unable to flush: " <> message e)) subscribers))
        v

  abbrev on_status :
      Status
      → (ℕ → Vortex T Up Down → Vortex T Up Down)
      → List (Subscriber T.Identifiable)
      → Vortex T Up Down
      → Monitored T Up Down
  on_status reconnection sleep subscribers v = after_resync subscribers (flush c sleep v)
  on_status final_disconnection sleep subscribers v =
      returned (push_status final_disconnection subscribers) v
  on_status s sleep subscribers v = watching (push_status s subscribers) v

  -- One round of the loop. `commits` are the identities whose events are committed at the time,
  -- and `sleep` is what becomes of the state while a flush sleeps.
  unfoldable pub on_message :
      List String
      → (ℕ → Vortex T Up Down → Vortex T Up Down)
      → Message T.Identifiable
      → List (Subscriber T.Identifiable)
      → Vortex T Up Down
      → Monitored T Up Down
  unfolding on_event push_errors push_status flush
  on_message commits sleep (event evt) subscribers v =
      let (subscribers', v') = on_event c.access.settings type_text commits evt subscribers v in
      watching subscribers' v'
  on_message commits sleep (failure e) subscribers v =
      watching (push_errors (foreign ("upstream error: " <> message e)) subscribers) v
  on_message commits sleep (status s) subscribers v = on_status s sleep subscribers v
