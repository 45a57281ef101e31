-- ===== src/Vortex/Commit.antt =====
-- manipvortex/manipulator.go: the state of `vortexManipulator` and `commitUpstream`, `commitLocal`.
-- The two manipulators, the reconcilers and the names of identities are parameters. The locks are
-- not modelled: an operation is one step. The commit log is a list; that its channel is full, and
-- blocks, is not modelled.
use manipulate.Prelude.{ℕ, String, Bool, true, false, Option, none, some, List, [], ◌∷◌, ◌++◌}
use manipulate.Prelude.{if◌then◌else◌}
use manipulate.Prelude.Dict.{Dict, lookup}
use manipulate.Errors.{Error}
use manipulate.Context.{Types, Context, new_context, ReadConsistency, WriteConsistency}

-- elemental.Operation, those that write.
pub data Operation : Type 0 where
  create update delete : Operation

-- What a reconciler answers: an error, that the object is not to be written, or the object to
-- write, which is the given one (changed in place, maybe) or another one.
pub data Reconciled (Object : Type 0) : Type 0 where
  failed : Error → Reconciled Object
  refused : Reconciled Object
  same : Object → Reconciled Object
  replaced : Object → Reconciled Object

abbrev pub Reconciler : Types → Type 0
Reconciler T = Context T → Operation → T.Identifiable → Reconciled T.Identifiable

-- A store that a write of a manipulator goes to: the write may change the object too.
abbrev pub Writer : Types → Type 0 → Type 0
Writer T S = Operation → Context T → T.Identifiable → S → Option Error × T.Identifiable × S

-- processors.go, without the hook, which Vortex.Bulk has, and the flag that no code reads.
pub record Processor (T : Types) : Type 0 where
  pub write_consistency : WriteConsistency
  pub read_consistency : ReadConsistency
  pub queueing_duration : ℕ
  pub downstream_reconciler : Option (Reconciler T)
  pub upstream_reconciler : Option (Reconciler T)
  pub commit_on_event : Bool

-- transaction.go, without the date, which only the commit log has.
pub record Transaction (T : Types) : Type 0 where
  pub mctx : Context T
  pub object : T.Identifiable
  pub method : Operation
  pub deadline : ℕ

-- What is fixed when the manipulator is made. `upstream` is `none` if there is no upstream.
-- The capacity of the queue is positive: an unbuffered queue is not modelled.
pub record Settings (T : Types) (Up Down : Type 0) : Type 0 where
  pub upstream : Option (Writer T Up)
  pub downstream : Writer T Down
  pub identity_name : T.Identifiable → String
  pub background : T.GoContext
  pub processors : Dict (Processor T)
  pub default_read_consistency : ReadConsistency
  pub default_write_consistency : WriteConsistency
  pub default_queue_duration : ℕ
  pub queue_capacity : ℕ
  pub upstream_reconciler : Option (Reconciler T)
  pub downstream_reconciler : Option (Reconciler T)
  pub disable_upstream_commit : Bool
  pub enable_log : Bool

-- What changes: the two stores, the transaction queue, oldest first, and the commit log, of which
-- the dates and contexts are left out.
pub record Vortex (T : Types) (Up Down : Type 0) : Type 0 where
  pub up : Up
  pub down : Down
  pub queue : List (Transaction T)
  pub log : List (Operation × T.Identifiable)

-- How an operation ends. `object` is the object of the caller.
pub record Ended (T : Types) (Up Down : Type 0) : Type 0 where
  pub error : Option Error
  pub object : T.Identifiable
  pub vortex : Vortex T Up Down

-- The object to write, and whether it still is the caller's.
pub record Target (Object : Type 0) : Type 0 where
  pub mine : Object
  pub written : Object
  pub is_mine : Bool

-- An error, an object that is not to be written, or one that is.
pub data Verdict (Object : Type 0) : Type 0 where
  stop : Option Error → Object → Verdict Object
  go_on : Target Object → Verdict Object

abbrev judge : {A : Type 0} → Target A → Reconciled A → Verdict A
judge t (failed e) = stop (some e) t.mine
judge t refused = stop none t.mine
judge t (same o) =
    go_on (record { mine = if t.is_mine then o else t.mine; written = o; is_mine = t.is_mine })
judge t (replaced o) = go_on (record { mine = t.mine; written = o; is_mine = false })

-- `if r != nil { object, reconcile, err = r.Reconcile(…) … }`
abbrev reconcile_if :
    {T : Types}
    → Option (Reconciler T)
    → Context T
    → Operation
    → Target T.Identifiable
    → Verdict T.Identifiable
reconcile_if none mctx operation t = go_on t
reconcile_if (some r) mctx operation t = judge t (r mctx operation t.written)

abbrev then_reconcile : {A : Type 0} → Verdict A → (Target A → Verdict A) → Verdict A
then_reconcile (stop e o) next = stop e o
then_reconcile (go_on t) next = next t

-- The caller's object after a write of the target.
abbrev seen_by_caller : {A : Type 0} → Target A → A → A
seen_by_caller t o = if t.is_mine then o else t.mine

module _ {T : Types} {Up Down : Type 0} (settings : Settings T Up Down) where
  unfoldable pub processor_of : T.Identifiable → Option (Processor T)
  processor_of object = lookup (settings.identity_name object) settings.processors

  abbrev reconciler_of :
      (Processor T → Option (Reconciler T)) → Option (Processor T) → Option (Reconciler T)
  reconciler_of field none = none
  reconciler_of field (some cfg) = field cfg

  abbrev pub start : T.Identifiable → Target T.Identifiable
  start object = record { mine = object; written = object; is_mine = true }

  -- The reconcilers of `commitUpstream`: the global one, then that of the processor, if the
  -- identity of the object, as it is now, has one.
  unfoldable pub upstream_verdict : Operation → Context T → T.Identifiable → Verdict T.Identifiable
  unfolding processor_of
  upstream_verdict operation mctx object =
      then_reconcile (reconcile_if settings.upstream_reconciler mctx operation (start object)) λ t.
        reconcile_if (reconciler_of (λ cfg. cfg.upstream_reconciler) (processor_of t.written)) mctx
          operation t

  abbrev pub write_upstream :
      Writer T Up
      → Operation
      → Context T
      → Verdict T.Identifiable
      → Vortex T Up Down
      → Ended T Up Down
  write_upstream upstream operation mctx (stop e o) v = record { error = e; object = o; vortex = v }
  write_upstream upstream operation mctx (go_on t) v =
      let (e, o, up) = upstream operation mctx t.written v.up in
      record { error = e; object = seen_by_caller t o; vortex = record v { up = up } }

  abbrev pub commit_to :
      Option (Writer T Up)
      → Bool
      → Operation
      → Context T
      → T.Identifiable
      → Vortex T Up Down
      → Ended T Up Down
  commit_to none disabled operation mctx object v = record {
    error = none;
    object = object;
    vortex = v;
  }
  commit_to (some upstream) true operation mctx object v = record {
    error = none;
    object = object;
    vortex = v;
  }
  commit_to (some upstream) false operation mctx object v =
      write_upstream upstream operation mctx (upstream_verdict operation mctx object) v

  unfoldable pub commit_upstream :
      Operation → Context T → T.Identifiable → Vortex T Up Down → Ended T Up Down
  unfolding upstream_verdict
  commit_upstream operation mctx object v =
      commit_to settings.upstream settings.disable_upstream_commit operation mctx object v

  -- The global reconciler, then the processor, without which nothing is written.
  abbrev processor_verdict :
      Option (Processor T) → Operation → Context T → Target T.Identifiable → Verdict T.Identifiable
  processor_verdict none operation mctx t = stop none t.mine
  processor_verdict (some cfg) operation mctx t =
      reconcile_if cfg.downstream_reconciler mctx operation t

  unfoldable pub local_verdict : Operation → Context T → T.Identifiable → Verdict T.Identifiable
  unfolding processor_of
  local_verdict operation mctx object =
      then_reconcile (reconcile_if settings.downstream_reconciler mctx operation (start object))
        λ t. processor_verdict (processor_of t.written) operation mctx t

  abbrev pub log_if : Bool → Operation → T.Identifiable → Vortex T Up Down → Vortex T Up Down
  log_if true operation object v = record v { log = v.log ++ (operation, object) ∷ [] }
  log_if false operation object v = v

  -- After the write: its error, or the entry of the commit log.
  abbrev pub after_local :
      Operation
      → Target T.Identifiable
      → Option Error
      → T.Identifiable
      → Vortex T Up Down
      → Ended T Up Down
  after_local operation t (some e) o v = record {
    error = some e;
    object = seen_by_caller t o;
    vortex = v;
  }
  after_local operation t none o v = record {
    error = none;
    object = seen_by_caller t o;
    vortex = log_if settings.enable_log operation o v;
  }

  abbrev pub write_local :
      Operation → Context T → Verdict T.Identifiable → Vortex T Up Down → Ended T Up Down
  write_local operation mctx (stop e o) v = record { error = e; object = o; vortex = v }
  write_local operation mctx (go_on t) v =
      let (e, o, down) = settings.downstream operation mctx t.written v.down in
      after_local operation t e o (record v { down = down })

  abbrev pub or_new : Option (Context T) → Context T
  or_new none = new_context settings.background []
  or_new (some mctx) = mctx

  unfoldable pub commit_local :
      Operation → Option (Context T) → T.Identifiable → Vortex T Up Down → Ended T Up Down
  unfolding local_verdict
  commit_local operation mctx object v =
      write_local operation (or_new mctx) (local_verdict operation (or_new mctx) object) v
