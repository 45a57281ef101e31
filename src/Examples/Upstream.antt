-- ===== src/Examples/Upstream.antt =====
-- Reading through a cache, and events from the upstream.
use manipulate.Prelude.{◌≡◌, ◌≢◌, refl, ap, ◌∷◌, [], none, some, true, Option, List, String}
use manipulate.Prelude.Dict.{lookup}
use manipulate.Errors.{Error, foreign}
use manipulate.Context.{Context}
use manipulate.Vortex.Commit.{commit_local}
use manipulate.Vortex.Writes.{should_process}
use manipulate.Vortex.Reads.{Reader, Access, retrieve, is_strong_read}
use manipulate.Vortex.Reads.Caching.{IsReadable, retrieve-retrieve}
use manipulate.Vortex.Subscriptions.{contains}
use manipulate.Vortex.Events.{EventType, creation, Event, entity, Subscriber, on_event, is_filtered}
use manipulate.Vortex.Events.Delivery.{on_event-KeepsUpstream}
use manipulate.Examples.{Item, types, request, apple}
use manipulate.Examples.Caching.{strong, empty}

-- The item that was written last.
abbrev latest : List Item → Item → Option Error × Item × List Item
latest [] o = (some (foreign "nothing there"), o, [])
latest (x ∷ items) o = (none, x, x ∷ items)

abbrev pub reader : Reader types (List Item)
reader mctx o items = latest items o

-- The upstream has every item, and notes which were read.
abbrev pub counting : Reader types (List Item)
counting mctx o items = (none, o, o ∷ items)

abbrev pub access : Access types (List Item) (List Item)
access = record {
  settings = record strong { default_read_consistency = manipulate.Context.ReadConsistency.strong };
  read_up = counting;
  read_down = reader;
  prefetcher = none;
  identity_text = λ o. "fruit";
}

latest_again :
    (items : List Item) (o : Item)
    → (latest items o).0 ≡ none
    → latest (latest items o).2 (latest items o).1 ≡ (none, (latest items o).1, (latest items o).2)
latest_again [] o h = cc h
latest_again (x ∷ items) o h = refl

readable : IsReadable access
readable = record {
  read_again = λ mctx o items h. latest_again items o h;
  read_created = λ mctx o items h. refl;
  name_read_down = λ mctx o items. refl;
  name_read_up = λ mctx o items. refl;
  name_create = λ mctx o items. refl;
}

read_through : retrieve access (some request) apple empty ≡ record {
  error = none;
  object = apple;
  vortex = record empty { up = apple ∷ []; down = apple ∷ [] };
}
unfolding retrieve should_process is_strong_read lookup manipulate.Vortex.Reads.retrieve_processed
read_through = refl

processed : should_process access.settings request apple ≡ true
unfolding should_process lookup
processed = refl

retrieve-retrieve_example :
    retrieve access
      (some request)
      (retrieve access (some request) apple empty).object
      (retrieve access (some request) apple empty).vortex
    ≡ record {
      error = none;
      object = (retrieve access (some request) apple empty).object;
      vortex = (retrieve access (some request) apple empty).vortex;
    }
retrieve-retrieve_example =
    retrieve-retrieve access readable request apple empty refl processed
      (ap (λ r. r.error) read_through)

abbrev pub type_text : EventType → String
type_text kind = "create"

abbrev ripe : Event Item
ripe = record { identity = "fruit"; kind = creation; decoded = entity apple }

-- A subscriber to all events with room for one, and one to none.
abbrev pub listeners : List (Subscriber Item)
listeners =
    record { is_filtered_out = none; capacity = 1; events = []; errors = []; statuses = [] }
    ∷ record {
      is_filtered_out = some (λ name kind. true);
      capacity = 1;
      events = [];
      errors = [];
      statuses = [];
    }
    ∷ []

abbrev deaf : List (Subscriber Item)
deaf =
    record {
      is_filtered_out = some (λ name kind. true);
      capacity = 1;
      events = [];
      errors = [];
      statuses = [];
    }
    ∷ []

committed_event :
    (on_event strong type_text ("fruit" ∷ []) ripe listeners empty).1.down ≡ apple ∷ []
unfolding on_event contains manipulate.Vortex.Events.event_handler commit_local lookup
committed_event = refl

on_event-KeepsUpstream_example :
    ((on_event strong type_text ("fruit" ∷ []) ripe listeners empty).1.up ≡ [])
    × ((on_event strong type_text ("fruit" ∷ []) ripe listeners empty).1.queue ≡ [])
    × ((on_event strong type_text ("fruit" ∷ []) ripe listeners empty).1.down ≢ []
        → contains ("fruit" ∷ []) "fruit" ≡ true)
on_event-KeepsUpstream_example =
    on_event-KeepsUpstream strong type_text ("fruit" ∷ []) ripe listeners empty
