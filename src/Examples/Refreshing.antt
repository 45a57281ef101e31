-- ===== src/Examples/Refreshing.antt =====
-- A cache of fruits that is warmed up, refreshed at a reconnection and read in bulk.
use manipulate.Prelude.{
  ◌≡◌, refl, ap, ◌∷◌, [], ◌++◌, none, some, List, length, arith, ne_of_false, ◌==◌, if◌then◌else◌,
}
use manipulate.Prelude.Int.{pos}
use manipulate.Prelude.Dict.{lookup}
use manipulate.Context.{initial}
use manipulate.Push.{reconnection}
use manipulate.Iter.Collect.{Server, serve, Pages, more, last}
use manipulate.Vortex.Commit.{processor_of}
use manipulate.Vortex.Writes.Queue.{next}
use manipulate.Vortex.Bulk.{Identity, Bulk, retrieve_many, should_process_name}
use manipulate.Vortex.Warming.{Cache, flush, default_warm_up}
use manipulate.Vortex.Warming.Insertion.{IsKeeping, IsUnreconciled}
use manipulate.Vortex.Warming.Loading.{objects_of}
use manipulate.Vortex.Monitor.{status, on_message}
use manipulate.Vortex.Monitor.Resync.{Resyncs, reconnection-Resyncs}
use manipulate.Vortex.Making.{
  Parts, Made, cache_of, configured, new_config, option_transaction_queue_length,
  option_upstream_manipulator, option_default_consistency,
}
use manipulate.Examples.{Item, types, request, apple, banana, cherry}
use manipulate.Examples.Caching.{writer, strong, empty}
use manipulate.Examples.Upstream.{access, counting, reader, type_text, listeners}

abbrev fruit : Identity
fruit = record { name = "fruit"; category = "fruits" }

-- Two pages.
abbrev shop : Identity → Server types
shop identity size after =
    if after == ""
    then record { objects = apple ∷ banana ∷ []; next = "p2" }
    else record { objects = cherry ∷ []; next = "" }

abbrev blocks : Identity → List (List Item)
blocks identity = (apple ∷ banana ∷ []) ∷ (cherry ∷ []) ∷ []

shop-Pages : Pages types (shop fruit) (pos 1000) "" (blocks fruit)
shop-Pages = more apple (banana ∷ []) refl (ne_of_false "p2" "" refl) (last cherry [] refl refl)

abbrev cache : Cache types (List Item) (List Item)
cache = record {
  access = access;
  identities = fruit ∷ [];
  identity_text = λ i. i.name;
  prefetcher = some (default_warm_up {T = types} 5 tt (λ i. serve (shop i)), λ up. up);
  flush_down = some (λ down. (none, []));
}

-- The item is somewhere in the list.
abbrev Holds : Item → List Item → Type 0
Holds o items = (before : List Item) × (after : List Item) × (items ≡ before ++ o ∷ after)

keeping : IsKeeping cache.access.settings Holds
keeping = record {
  created = λ mctx o d h. ([], d, refl);
  kept = λ mctx o other d (before, after, e). (o ∷ before, after, ap (λ items. o ∷ items) e);
}

unreconciled : (o : Item) → IsUnreconciled cache.access.settings o
unfolding lookup processor_of
unreconciled o = (_, refl, refl)

reconnection-Resyncs_example :
    Resyncs cache Holds listeners
      (objects_of blocks (fruit ∷ []))
      (flush cache (λ n v. v) empty)
      (on_message cache type_text [] (λ n v. v) (status reconnection) listeners empty)
unfolding manipulate.Iter.Collect.concat
reconnection-Resyncs_example =
    reconnection-Resyncs cache Holds keeping refl shop tt 5 blocks type_text [] writer (λ n v. v)
      listeners empty (λ up. up) refl refl
      (
        (
          shop-Pages,
          omega arith,
          (unreconciled apple, (unreconciled banana, (unreconciled cherry, tt))),
        ),
        tt,
      )

abbrev bulk : Bulk types (List Item) (List Item)
bulk = record {
  access = access;
  retrieve_many_up = λ identity mctx dest items. record {
    error = none;
    objects = dest ++ items;
    mctx = mctx;
    state = items;
  };
  retrieve_many_down = λ identity mctx dest items. record {
    error = none;
    objects = dest ++ items;
    mctx = mctx;
    state = items;
  };
  prefetch_many = none;
  hook_of = λ name. none;
  delete_many_up = λ mctx identity items. (none, []);
  count_down = λ mctx identity items. ((none, length items), items);
  identity_text = λ i. i.name;
}

-- Only the upstream store has the apple, and it is not found.
abbrev behind : manipulate.Vortex.Commit.Vortex types (List Item) (List Item)
behind = record empty { up = apple ∷ []; down = banana ∷ [] }

local_objects : (retrieve_many bulk (some request) fruit [] behind).objects ≡ banana ∷ []
unfolding retrieve_many should_process_name lookup
local_objects = refl

abbrev parts : Parts types (List Item) (List Item)
parts = record {
  downstream = writer;
  read_up = counting;
  read_down = reader;
  flush_down = none;
  processors = strong.processors;
  identities = fruit ∷ [];
  identity_name = λ o. "fruit";
  object_identity_text = λ o. "fruit";
  identity_text = λ i. i.name;
  background = tt;
  open_log = λ file. none;
}

abbrev options : List (manipulate.Vortex.Making.VortexOption types (List Item) (List Item))
options =
    option_transaction_queue_length 2
    ∷ option_upstream_manipulator (some writer)
    ∷ option_default_consistency manipulate.Context.ReadConsistency.default
        manipulate.Context.WriteConsistency.none
    ∷ []

abbrev made_cache : Cache types (List Item) (List Item)
made_cache = cache_of parts (configured options new_config)
