-- ===== src/Vortex/Writes/Order.antt =====
-- The order of the two commits of a write.
use manipulate.Prelude.{
  ℕ, ◌≤◌, ◌≡◌, ◌≢◌, refl, ◌∙◌, Bool, true, false, Option, none, some, arith, ltb, ◌||◌, Bool-cases,
  inl, inr, if◌then◌else◌,
}
use manipulate.Errors.{Error}
use manipulate.Context.{Types, Context}
use manipulate.Vortex.Commit.{
  Operation, Transaction, Settings, Vortex, Writer, Verdict, stop, go_on, processor_of,
  commit_upstream, write_upstream, commit_to, upstream_verdict,
}
use manipulate.Vortex.Writes.{
  should_process, is_strong, enqueue, write_processed, write_by, core_crud_operation,
  after_upstream, context_or_new, sync_transaction, sync_local, is_nil,
}

module _ {T : Types} {Up Down : Type 0} (settings : Settings T Up Down) where
  -- All but the upstream store is as it was.
  pub record KeepsCache (v v' : Vortex T Up Down) : Type 0 where
    pub same_down : v'.down ≡ v.down
    pub same_queue : v'.queue ≡ v.queue
    pub same_log : v'.log ≡ v.log

  write_upstream-KeepsCache :
      (w : Writer T Up) (operation : Operation) (mctx : Context T) (d : Verdict T.Identifiable)
      (v : Vortex T Up Down)
      → KeepsCache v (write_upstream settings w operation mctx d v).vortex
  write_upstream-KeepsCache w operation mctx (stop e o) v = record {
    same_down = refl;
    same_queue = refl;
    same_log = refl;
  }
  write_upstream-KeepsCache w operation mctx (go_on t) v = record {
    same_down = refl;
    same_queue = refl;
    same_log = refl;
  }

  commit_to-KeepsCache :
      (w : Option (Writer T Up)) (disabled : Bool) (operation : Operation) (mctx : Context T)
      (o : T.Identifiable) (v : Vortex T Up Down)
      → KeepsCache v (commit_to settings w disabled operation mctx o v).vortex
  commit_to-KeepsCache none disabled operation mctx o v = record {
    same_down = refl;
    same_queue = refl;
    same_log = refl;
  }
  commit_to-KeepsCache (some w) true operation mctx o v = record {
    same_down = refl;
    same_queue = refl;
    same_log = refl;
  }
  commit_to-KeepsCache (some w) false operation mctx o v =
      write_upstream-KeepsCache w operation mctx (upstream_verdict settings operation mctx o) v

  pub commit_upstream-KeepsCache :
      (operation : Operation) (mctx : Context T) (o : T.Identifiable) (v : Vortex T Up Down)
      → KeepsCache v (commit_upstream settings operation mctx o v).vortex
  commit_upstream-KeepsCache operation mctx o v =
      unfold commit_upstream in
      commit_to-KeepsCache settings.upstream settings.disable_upstream_commit operation mctx o v

  down-enqueue :
      (now : ℕ) (operation : Operation) (mctx : Context T) (o : T.Identifiable)
      (v : Vortex T Up Down)
      → (enqueue settings now operation mctx o v).vortex.down ≡ v.down
  unfolding enqueue
  down-enqueue now operation mctx o v = ground arith

  -- A write that changes the downstream store is strong, and upstream returned no error.
  abbrev IsOrdered :
      Operation → Context T → T.Identifiable → Vortex T Up Down → Vortex T Up Down → Type 0
  IsOrdered operation mctx object v v' =
      v'.down ≢ v.down
      → (is_strong settings mctx object ≡ true)
        × ((commit_upstream settings operation mctx object v).error ≡ none)

  after_upstream-IsOrdered :
      (operation : Operation) (mctx : Context T) (object : T.Identifiable) (v : Vortex T Up Down)
      → is_strong settings mctx object ≡ true
      → (e : Option Error) → (commit_upstream settings operation mctx object v).error ≡ e
      → IsOrdered operation mctx object v
          (after_upstream settings operation mctx e
            (commit_upstream settings operation mctx object v).object
            (commit_upstream settings operation mctx object v).vortex).vortex
  after_upstream-IsOrdered operation mctx object v strong (some e) q changed =
      absurd (changed (commit_upstream-KeepsCache operation mctx object v).same_down)
  after_upstream-IsOrdered operation mctx object v strong none q changed = (strong, q)

  write_by-IsOrdered :
      (w : Option (Writer T Up)) (disabled strong : Bool) (now : ℕ) (operation : Operation)
      (mctx : Context T) (object : T.Identifiable) (v : Vortex T Up Down) {upstream : Writer T Up}
      → w ≡ some upstream
      → disabled ≡ false
      → is_strong settings mctx object ≡ strong
      → IsOrdered operation mctx object v
          (write_by settings w disabled strong now operation mctx object v).vortex
  write_by-IsOrdered none disabled strong now operation mctx object v e d b = cc e
  write_by-IsOrdered (some u) true strong now operation mctx object v e d b = cc d
  write_by-IsOrdered (some u) false true now operation mctx object v e d b =
      after_upstream-IsOrdered operation mctx object v b _ refl
  write_by-IsOrdered (some u) false false now operation mctx object v e d b =
      λ changed. absurd (changed (down-enqueue now operation mctx object v))

  crud_by-IsOrdered :
      (processed : Bool) (now : ℕ) (operation : Operation) (mctx : Context T)
      (object : T.Identifiable) (v : Vortex T Up Down) {upstream : Writer T Up}
      → settings.upstream ≡ some upstream
      → settings.disable_upstream_commit ≡ false
      → IsOrdered operation mctx object v
          (if processed
            then write_processed settings now operation mctx object v
            else commit_upstream settings operation mctx object v).vortex
  crud_by-IsOrdered true now operation mctx object v e d =
      unfold write_processed in
      write_by-IsOrdered settings.upstream settings.disable_upstream_commit
        (is_strong settings mctx object) now operation mctx object v e d refl
  crud_by-IsOrdered false now operation mctx object v e d =
      λ changed. absurd (changed (commit_upstream-KeepsCache operation mctx object v).same_down)

  -- With an upstream to which writes are committed, an operation that writes changes the
  -- downstream store only if the write is strong and its upstream commit returned no error.
  pub down-core_crud_operation :
      (now : ℕ) (operation : Operation) (mctx : Option (Context T)) (object : T.Identifiable)
      (v : Vortex T Up Down) {upstream : Writer T Up}
      → settings.upstream ≡ some upstream
      → settings.disable_upstream_commit ≡ false
      → (core_crud_operation settings now operation mctx object v).vortex.down ≢ v.down
      → (is_strong settings (context_or_new settings mctx) object ≡ true)
        × ((commit_upstream settings operation (context_or_new settings mctx) object v).error
            ≡ none)
  down-core_crud_operation now operation mctx object v e d =
      unfold core_crud_operation in
      crud_by-IsOrdered (should_process settings (context_or_new settings mctx) object) now
        operation (context_or_new settings mctx) object v e d

  sync_local-down :
      (t : Transaction T) (e : Option Error) (object : T.Identifiable) (v : Vortex T Up Down)
      → (sync_local settings t e object v).down ≢ v.down
      → e ≡ none
  sync_local-down t none object v changed = refl
  sync_local-down t (some e) object v changed = absurd (changed refl)

  -- The background loop changes the downstream store by a transaction only before its deadline
  -- has passed, and only if its upstream commit returned no error.
  pub down-sync_transaction :
      (now : ℕ) (t : Transaction T) (v : Vortex T Up Down)
      → (sync_transaction settings now t v).down ≢ v.down
      → (now ≤ t.deadline) × ((commit_upstream settings t.method t.mctx t.object v).error ≡ none)
  unfolding sync_transaction
  down-sync_transaction now t v =
      elim (Bool-cases (ltb t.deadline now || is_nil (processor_of settings t.object))) [
        | inl dropped ↦ rw dropped (λ changed. absurd (changed refl))
        | inr taken ↦ rw taken (λ changed. (
          ground (arith, taken),
          sync_local-down t _ (commit_upstream settings t.method t.mctx t.object v).object
              (commit_upstream settings t.method t.mctx t.object v).vortex
              (λ same.
                changed (same ∙ (commit_upstream-KeepsCache t.method t.mctx t.object v).same_down)),
        ))
      ]
