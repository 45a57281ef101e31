-- ===== src/Examples/Caching.antt =====
-- A cache whose stores are lists of the items that were written to them, the last one first.
use manipulate.Prelude.{
  ◌≡◌, refl, ◌≤◌, ◌∷◌, [], none, some, true, false, Bool, List, arith, not, ◌&&◌, ◌||◌,
}
use manipulate.Prelude.Dict.{Dict, lookup}
use manipulate.Context.{ReadConsistency, WriteConsistency}
use manipulate.Vortex.Commit.{
  Operation, Writer, Processor, Settings, Vortex, Transaction, commit_upstream,
}
use manipulate.Vortex.Writes.{
  core_crud_operation, sync_transaction, sync_round, is_strong, context_or_new, transaction,
  should_process,
}
use manipulate.Vortex.Writes.Order.{down-core_crud_operation, down-sync_transaction}
use manipulate.Vortex.Writes.Queue.{sync_rounds, sync_rounds-nil}
use manipulate.Vortex.Subscriptions.{
  contains, initial_commits, commits_on_event, is_processed, update_filter,
}
use manipulate.Vortex.Subscriptions.Commits.{commits-update_filter, subscribed}
use manipulate.Examples.{Item, types, request, apple}

abbrev pub writer : Writer types (List Item)
writer operation mctx o s = (none, o, o ∷ s)

abbrev fruits : Bool → Processor types
fruits flag = record {
  write_consistency = WriteConsistency.default;
  read_consistency = ReadConsistency.default;
  queueing_duration = 0;
  downstream_reconciler = none;
  upstream_reconciler = none;
  commit_on_event = flag;
}

abbrev pub settings : WriteConsistency → Settings types (List Item) (List Item)
settings consistency = record {
  upstream = some writer;
  downstream = writer;
  identity_name = λ o. "fruit";
  background = tt;
  processors = ("fruit", fruits false) ∷ [];
  default_read_consistency = ReadConsistency.default;
  default_write_consistency = consistency;
  default_queue_duration = 60;
  queue_capacity = 2;
  upstream_reconciler = none;
  downstream_reconciler = none;
  disable_upstream_commit = false;
  enable_log = true;
}

abbrev pub strong : Settings types (List Item) (List Item)
strong = settings WriteConsistency.strong

abbrev write_back : Settings types (List Item) (List Item)
write_back = settings WriteConsistency.default

abbrev pub empty : Vortex types (List Item) (List Item)
empty = record { up = []; down = []; queue = []; log = [] }

abbrev waiting : Transaction types
waiting = record { mctx = request; object = apple; method = Operation.create; deadline = 60 }

abbrev queued : Vortex types (List Item) (List Item)
queued = record { up = []; down = []; queue = waiting ∷ []; log = [] }

cached :
    (core_crud_operation strong 5 Operation.create (some request) apple empty).vortex.down
    ≡ apple ∷ []
unfolding core_crud_operation manipulate.Vortex.Writes.write_processed is_strong commit_upstream
    manipulate.Vortex.Commit.commit_local should_process lookup
cached = refl

down-core_crud_operation_example :
    (is_strong strong request apple ≡ true)
    × ((commit_upstream strong Operation.create request apple empty).error ≡ none)
down-core_crud_operation_example =
    down-core_crud_operation strong 5 Operation.create (some request) apple empty refl refl
      (rw cached (λ e. cc e))

synced : (sync_transaction write_back 30 waiting empty).down ≡ apple ∷ []
unfolding sync_transaction commit_upstream manipulate.Vortex.Commit.commit_local lookup
synced = refl

down-sync_transaction_example :
    (30 ≤ waiting.deadline)
    × ((commit_upstream write_back waiting.method waiting.mctx waiting.object empty).error ≡ none)
down-sync_transaction_example =
    down-sync_transaction write_back 30 waiting empty (rw synced (λ e. cc e))

sync_rounds-nil_example : (sync_rounds write_back (100 ∷ []) queued).queue ≡ []
sync_rounds-nil_example = sync_rounds-nil write_back (100 ∷ []) queued refl (omega arith)

abbrev processors : Dict (Processor types)
processors = ("fruit", fruits false) ∷ ("herb", fruits true) ∷ []

commits-update_filter_example : contains ("herb" ∷ []) "fruit" ≡ (
    is_processed processors (lookup "fruit" processors)
    && (not (subscribed processors (some ("fruit" ∷ []) ∷ []) "fruit")
        || commits_on_event processors (lookup "fruit" processors)))
unfolding update_filter lookup manipulate.Vortex.Subscriptions.delete
commits-update_filter_example =
    commits-update_filter processors (some ("fruit" ∷ []) ∷ []) "fruit"
      (record { commits = "herb" ∷ []; identities = "fruit" ∷ "herb" ∷ [] }) refl
