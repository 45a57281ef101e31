-- ===== src/Vortex/Writes/Queue.antt =====
-- The transaction queue: its bound, what a write-back adds, and that the background loop empties it.
use manipulate.Prelude.{
  ℕ, ◌-◌, ◌≤◌, ◌≡◌, refl, ap, Bool, true, false, Option, none, some, List, [], ◌∷◌, arith,
  Bool-cases, inl, inr, ltb, ◌||◌, length, length-append,
}
use manipulate.Errors.{Error}
use manipulate.Context.{Types, Context}
use manipulate.Vortex.Commit.{
  Operation, Transaction, Settings, Vortex, Writer, Verdict, stop, go_on, processor_of,
  commit_upstream, commit_local, write_local, local_verdict, or_new, after_local, log_if,
}
use manipulate.Vortex.Writes.{
  should_process, is_strong, enqueue, write_processed, write_by, core_crud_operation,
  after_upstream, context_or_new, sync_round, sync_transaction, sync_next, sync_if, sync_local,
  is_nil, transaction,
}
use manipulate.Vortex.Writes.Order.{commit_upstream-KeepsCache}

module _ {T : Types} {Up Down : Type 0} (settings : Settings T Up Down) where
  queue-log_if :
      (b : Bool) (operation : Operation) (o : T.Identifiable) (v : Vortex T Up Down)
      → (log_if settings b operation o v).queue ≡ v.queue
  queue-log_if true operation o v = refl
  queue-log_if false operation o v = refl

  queue-write_local :
      (operation : Operation) (mctx : Context T) (d : Verdict T.Identifiable) (v : Vortex T Up Down)
      → (write_local settings operation mctx d v).vortex.queue ≡ v.queue
  queue-write_local operation mctx (stop e o) v = refl
  queue-write_local operation mctx (go_on t) v =
      let (e, o, down) = settings.downstream operation mctx t.written v.down in after e o down
    where
      after :
          (e : Option Error) (o : T.Identifiable) (down : Down)
          → (after_local settings operation t e o (record v { down = down })).vortex.queue ≡ v.queue
      after (some e) o down = refl
      after none o down = queue-log_if settings.enable_log operation o (record v { down = down })

  pub queue-commit_local :
      (operation : Operation) (mctx : Option (Context T)) (o : T.Identifiable)
      (v : Vortex T Up Down)
      → (commit_local settings operation mctx o v).vortex.queue ≡ v.queue
  queue-commit_local operation mctx o v =
      unfold commit_local in
      queue-write_local operation (or_new settings mctx)
        (local_verdict settings operation (or_new settings mctx) o) v

  queue-commit_upstream :
      (operation : Operation) (mctx : Context T) (o : T.Identifiable) (v : Vortex T Up Down)
      → (commit_upstream settings operation mctx o v).vortex.queue ≡ v.queue
  queue-commit_upstream operation mctx o v =
      (commit_upstream-KeepsCache settings operation mctx o v).same_queue

  queue-after_upstream :
      (operation : Operation) (mctx : Context T) (e : Option Error) (o : T.Identifiable)
      (v : Vortex T Up Down)
      → (after_upstream settings operation mctx e o v).vortex.queue ≡ v.queue
  queue-after_upstream operation mctx (some e) o v = refl
  queue-after_upstream operation mctx none o v = queue-commit_local operation (some mctx) o v

  -- The queue is within the capacity of its channel.
  abbrev IsBounded : Vortex T Up Down → Type 0
  IsBounded v = length v.queue ≤ settings.queue_capacity

  enqueue-IsBounded :
      (now : ℕ) (operation : Operation) (mctx : Context T) (o : T.Identifiable)
      (v : Vortex T Up Down)
      → IsBounded v
      → IsBounded (enqueue settings now operation mctx o v).vortex
  unfolding enqueue
  enqueue-IsBounded now operation mctx o v h =
      ground (arith, length-append v.queue (transaction settings now operation mctx o ∷ []))

  write_by-IsBounded :
      (w : Option (Writer T Up)) (disabled strong : Bool) (now : ℕ) (operation : Operation)
      (mctx : Context T) (o : T.Identifiable) (v : Vortex T Up Down)
      → IsBounded v
      → IsBounded (write_by settings w disabled strong now operation mctx o v).vortex
  write_by-IsBounded none disabled strong now operation mctx o v h = rw queue-commit_local h
  write_by-IsBounded (some u) true strong now operation mctx o v h = rw queue-commit_local h
  write_by-IsBounded (some u) false true now operation mctx o v h =
      rw (queue-after_upstream, queue-commit_upstream) h
  write_by-IsBounded (some u) false false now operation mctx o v h =
      enqueue-IsBounded now operation mctx o v h

  core_crud_operation-IsBounded :
      (now : ℕ) (operation : Operation) (mctx : Option (Context T)) (o : T.Identifiable)
      (v : Vortex T Up Down)
      → IsBounded v
      → IsBounded (core_crud_operation settings now operation mctx o v).vortex
  unfolding core_crud_operation
  core_crud_operation-IsBounded now operation mctx o v h =
      elim (Bool-cases (should_process settings (context_or_new settings mctx) o)) [
        | inl e ↦ rw e (
            unfold write_processed in
            write_by-IsBounded settings.upstream settings.disable_upstream_commit
              (is_strong settings (context_or_new settings mctx) o) now operation
              (context_or_new settings mctx) o v h)
        | inr e ↦ rw (e, queue-commit_upstream) h
      ]

  queue-sync_local :
      (t : Transaction T) (e : Option Error) (o : T.Identifiable) (v : Vortex T Up Down)
      → (sync_local settings t e o v).queue ≡ v.queue
  queue-sync_local t (some e) o v = refl
  queue-sync_local t none o v = queue-commit_local t.method (some t.mctx) o v

  queue-sync_transaction :
      (now : ℕ) (t : Transaction T) (v : Vortex T Up Down)
      → (sync_transaction settings now t v).queue ≡ v.queue
  unfolding sync_transaction
  queue-sync_transaction now t v =
      elim (Bool-cases (ltb t.deadline now || is_nil (processor_of settings t.object))) [
        | inl e ↦ rw e
        | inr e ↦ rw (e, queue-sync_local, queue-commit_upstream)
      ]

  -- Each round takes the oldest transaction off, whatever becomes of it.
  queue-sync_next :
      (now : ℕ) (queue : List (Transaction T)) (t : Transaction T) (v : Vortex T Up Down)
      → (sync_next settings now (t ∷ queue) v).queue ≡ queue
  queue-sync_next now queue t v = queue-sync_transaction now t (record v { queue = queue })

  sync_next-IsBounded :
      (now : ℕ) (queue : List (Transaction T)) (v : Vortex T Up Down)
      → v.queue ≡ queue
      → IsBounded v
      → IsBounded (sync_next settings now queue v)
  sync_next-IsBounded now [] v e h = h
  sync_next-IsBounded now (t ∷ queue) v e h =
      rw (queue-sync_next now queue t v) (omega (arith, ap length e))

  sync_if-IsBounded :
      (w : Option (Writer T Up)) (now : ℕ) (v : Vortex T Up Down)
      → IsBounded v
      → IsBounded (sync_if settings w now v)
  sync_if-IsBounded none now v h = h
  sync_if-IsBounded (some upstream) now v h = sync_next-IsBounded now v.queue v refl h

  sync_round-IsBounded :
      (now : ℕ) (v : Vortex T Up Down) → IsBounded v → IsBounded (sync_round settings now v)
  sync_round-IsBounded now v h = unfold sync_round in sync_if-IsBounded settings.upstream now v h

  -- What clients and the background loop do, in any order and at any times.
  pub data Step : Vortex T Up Down → Vortex T Up Down → Type 0 where
    write :
        (now : ℕ) (operation : Operation) (mctx : Option (Context T)) (object : T.Identifiable)
        (v : Vortex T Up Down)
        → Step v (core_crud_operation settings now operation mctx object v).vortex
    sync : (now : ℕ) (v : Vortex T Up Down) → Step v (sync_round settings now v)

  pub data Reach (v : Vortex T Up Down) : Vortex T Up Down → Type 0 where
    here : Reach v v
    next : {v1 v2 : Vortex T Up Down} → Reach v v1 → Step v1 v2 → Reach v v2

  -- A transaction queue that is within its capacity stays within it, whatever clients write and
  -- whenever the background loop runs.
  pub Reach-IsBounded : {v v' : Vortex T Up Down} → IsBounded v → Reach v v' → IsBounded v'
  Reach-IsBounded h here = h
  Reach-IsBounded h (next r (write now operation mctx object v)) =
      core_crud_operation-IsBounded now operation mctx object v (Reach-IsBounded h r)
  Reach-IsBounded h (next r (sync now v)) = sync_round-IsBounded now v (Reach-IsBounded h r)

  -- Rounds of the background loop, at the given times.
  unfoldable pub sync_rounds : List ℕ → Vortex T Up Down → Vortex T Up Down
  sync_rounds [] v = v
  sync_rounds (now ∷ times) v = sync_rounds times (sync_round settings now v)

  length-sync_next :
      (now : ℕ) (queue : List (Transaction T)) (v : Vortex T Up Down)
      → v.queue ≡ queue
      → length (sync_next settings now queue v).queue ≡ length queue - 1
  length-sync_next now [] v e = rw e (omega arith)
  length-sync_next now (t ∷ queue) v e = rw (queue-sync_next now queue t v) (omega arith)

  length-zero : (xs : List (Transaction T)) → length xs ≤ 0 → xs ≡ []
  length-zero [] h = refl
  length-zero (x ∷ xs) h = absurd (omega arith)

  length-sync_if :
      (w : Option (Writer T Up)) (now : ℕ) (v : Vortex T Up Down) {upstream : Writer T Up}
      → w ≡ some upstream
      → length (sync_if settings w now v).queue ≡ length v.queue - 1
  length-sync_if none now v e = cc e
  length-sync_if (some upstream) now v e = length-sync_next now v.queue v refl

  length-sync_round :
      (now : ℕ) (v : Vortex T Up Down) {upstream : Writer T Up}
      → settings.upstream ≡ some upstream
      → length (sync_round settings now v).queue ≡ length v.queue - 1
  length-sync_round now v e = unfold sync_round in length-sync_if settings.upstream now v e

  -- With an upstream, as many rounds of the background loop as there are transactions empty the
  -- queue if no client writes in between, also where transactions are past their deadline or
  -- commits fail.
  pub sync_rounds-nil :
      (times : List ℕ) (v : Vortex T Up Down) {upstream : Writer T Up}
      → settings.upstream ≡ some upstream
      → length v.queue ≤ length times
      → (sync_rounds times v).queue ≡ []
  unfolding sync_rounds
  sync_rounds-nil [] v e h = length-zero v.queue h
  sync_rounds-nil (now ∷ times) v e h =
      sync_rounds-nil times (sync_round settings now v) e (omega (arith, length-sync_round now v e))
