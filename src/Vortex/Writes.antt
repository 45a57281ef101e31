-- ===== src/Vortex/Writes.antt =====
-- manipvortex/manipulator.go: `Create`, `Update` and `Delete`, which are `coreCRUDOperation`, and
-- `backgroundSync`. A time is a number, and `now` is what the clock says.
pub mod Order
pub mod Queue
use manipulate.Prelude.{
  ℕ, ◌+◌, String, ◌<>◌, Bool, true, false, not, ◌&&◌, ◌||◌, Option, none, some, List, [], ◌∷◌, ◌++◌,
}
use manipulate.Prelude.{if◌then◌else◌, ltb, eqb, length}
use manipulate.Prelude.Decimal.{decimal}
use manipulate.Errors.{Error, foreign}
use manipulate.Context.{Types, Context, new_context, WriteConsistency}
use manipulate.Vortex.Strength.{is_strong_write_consistency}
use manipulate.Vortex.Commit.{
  Operation, Processor, Transaction, Settings, Vortex, Ended, Writer, processor_of, commit_upstream,
  commit_local,
}

abbrev pub is_nil : {A : Type 0} → Option A → Bool
is_nil none = true
is_nil (some a) = false

module _ {T : Types} {Up Down : Type 0} (settings : Settings T Up Down) where
  unfoldable pub should_process : Context T → T.Identifiable → Bool
  unfolding processor_of
  should_process mctx object = not (is_nil (processor_of settings object)) && is_nil mctx.parent

  abbrev consistency_of : Option (Processor T) → Option WriteConsistency
  consistency_of none = none
  consistency_of (some cfg) = some cfg.write_consistency

  unfoldable pub is_strong : Context T → T.Identifiable → Bool
  unfolding is_strong_write_consistency processor_of
  is_strong mctx object =
      is_strong_write_consistency (some mctx) (consistency_of (processor_of settings object))
        settings.default_write_consistency

  -- The queueing duration of the processor, which a queued object has, or the default if it is 0.
  abbrev duration_of : Option (Processor T) → ℕ
  duration_of none = settings.default_queue_duration
  duration_of (some cfg) =
      if eqb cfg.queueing_duration 0 then settings.default_queue_duration else cfg.queueing_duration

  unfoldable pub transaction : ℕ → Operation → Context T → T.Identifiable → Transaction T
  unfolding processor_of
  transaction now method mctx object = record {
    mctx = mctx;
    object = object;
    method = method;
    deadline = now + duration_of (processor_of settings object);
  }

  -- `genericUpdater` when nothing is committed upstream by this call: the send on the queue, which
  -- does not wait. The capacity is positive: a send on a channel of capacity 0 succeeds just if the
  -- background loop waits for it, and is not modelled.
  unfoldable pub enqueue :
      ℕ → Operation → Context T → T.Identifiable → Vortex T Up Down → Ended T Up Down
  unfolding transaction
  enqueue now method mctx object v =
      if ltb (length v.queue) settings.queue_capacity
      then record {
        error = none;
        object = object;
        vortex = record v { queue = v.queue ++ transaction now method mctx object ∷ [] };
      }
      else record {
        error = some (foreign ("commit queue is full: " <> decimal (length v.queue)));
        object = object;
        vortex = v;
      }

  -- After the upstream commit of a strong write: its error, or the local commit.
  abbrev pub after_upstream :
      Operation → Context T → Option Error → T.Identifiable → Vortex T Up Down → Ended T Up Down
  after_upstream operation mctx (some e) object v = record {
    error = some e;
    object = object;
    vortex = v;
  }
  after_upstream operation mctx none object v = commit_local settings operation (some mctx) object v

  -- `genericUpdater` and the local commit that it asks for, by its tests: whether there is an
  -- upstream, whether commits to it are disabled, and whether the write is strong.
  abbrev pub write_by :
      Option (Writer T Up)
      → Bool
      → Bool
      → ℕ
      → Operation
      → Context T
      → T.Identifiable
      → Vortex T Up Down
      → Ended T Up Down
  write_by none disabled strong now operation mctx object v =
      commit_local settings operation (some mctx) object v
  write_by (some upstream) true strong now operation mctx object v =
      commit_local settings operation (some mctx) object v
  write_by (some upstream) false true now operation mctx object v =
      let u = commit_upstream settings operation mctx object v in
      after_upstream operation mctx u.error u.object u.vortex
  write_by (some upstream) false false now operation mctx object v =
      enqueue now operation mctx object v

  unfoldable pub write_processed :
      ℕ → Operation → Context T → T.Identifiable → Vortex T Up Down → Ended T Up Down
  write_processed now operation mctx object v =
      write_by settings.upstream settings.disable_upstream_commit (is_strong mctx object) now
        operation mctx object v

  abbrev pub context_or_new : Option (Context T) → Context T
  context_or_new none = new_context settings.background []
  context_or_new (some mctx) = mctx

  unfoldable pub core_crud_operation :
      ℕ → Operation → Option (Context T) → T.Identifiable → Vortex T Up Down → Ended T Up Down
  core_crud_operation now operation mctx object v =
      let c = context_or_new mctx in
      if should_process c object
      then write_processed now operation c object v
      else commit_upstream settings operation c object v

  -- The commits of a transaction of the queue. Errors are logged and dropped.
  abbrev pub sync_local :
      Transaction T → Option Error → T.Identifiable → Vortex T Up Down → Vortex T Up Down
  sync_local t (some e) object v = v
  sync_local t none object v = (commit_local settings t.method (some t.mctx) object v).vortex

  unfoldable pub sync_transaction : ℕ → Transaction T → Vortex T Up Down → Vortex T Up Down
  sync_transaction now t v =
      if ltb t.deadline now || is_nil (processor_of settings t.object)
      then v
      else (let u = commit_upstream settings t.method t.mctx t.object v in
          sync_local t u.error u.object u.vortex)

  abbrev pub sync_next : ℕ → List (Transaction T) → Vortex T Up Down → Vortex T Up Down
  sync_next now [] v = v
  sync_next now (t ∷ queue) v = sync_transaction now t (record v { queue = queue })

  -- Without an upstream `backgroundSync` returns at once.
  abbrev pub sync_if : Option (Writer T Up) → ℕ → Vortex T Up Down → Vortex T Up Down
  sync_if none now v = v
  sync_if (some upstream) now v = sync_next now v.queue v

  -- One round of the loop of `backgroundSync`; on an empty queue it waits.
  unfoldable pub sync_round : ℕ → Vortex T Up Down → Vortex T Up Down
  unfolding sync_transaction
  sync_round now v = sync_if settings.upstream now v
