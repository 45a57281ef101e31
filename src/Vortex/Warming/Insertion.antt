-- ===== src/Vortex/Warming/Insertion.antt =====
-- What the downstream store holds after an insertion of prefetched objects.
use manipulate.Prelude.{
  ◌≡◌, refl, sym, ◌∙◌, ap, Bool, true, false, Option, none, some, List, [], ◌∷◌, All, Option-cases,
  inl, inr,
}
use mathlib.Core.Path.{subst}
use manipulate.Errors.{Error}
use manipulate.Context.{Types, Context}
use manipulate.Vortex.Commit.{
  Operation, Settings, Vortex, Processor, Verdict, stop, go_on, start, processor_of, commit_local,
  write_local, local_verdict, or_new, after_local, log_if,
}
use manipulate.Vortex.Reads.{Access, insert_prefetched_data}

-- What the downstream store holds: an object that was created without an error, and what it held
-- before a creation.
pub record IsKeeping {T : Types} {Up Down : Type 0} (settings : Settings T Up Down)
    (holds : T.Identifiable → Down → Type 0) : Type 0 where
  pub created :
      (mctx : Context T) (o : T.Identifiable) (d : Down)
      → (settings.downstream Operation.create mctx o d).0 ≡ none
      → holds o (settings.downstream Operation.create mctx o d).2
  pub kept :
      (mctx : Context T) (o other : T.Identifiable) (d : Down)
      → holds other d
      → holds other (settings.downstream Operation.create mctx o d).2

-- The object has a processor, without a reconciler for the downstream store.
abbrev pub IsUnreconciled :
    {T : Types} {Up Down : Type 0} → Settings T Up Down → T.Identifiable → Type 0
IsUnreconciled {T} settings o =
    (cfg : Processor T) × (processor_of settings o ≡ some cfg) × (cfg.downstream_reconciler ≡ none)

module _ {T : Types} {Up Down : Type 0} (settings : Settings T Up Down)
    (holds : T.Identifiable → Down → Type 0) (keeping : IsKeeping settings holds) where
  local_verdict-lem :
      (mctx : Context T) (o : T.Identifiable)
      → settings.downstream_reconciler ≡ none
      → IsUnreconciled settings o
      → local_verdict settings Operation.create mctx o ≡ go_on (start settings o)
  unfolding local_verdict
  local_verdict-lem mctx o e (cfg, found, free) = rw (e, found, free)

  down-log_if :
      (b : Bool) (o : T.Identifiable) (v : Vortex T Up Down)
      → (log_if settings b Operation.create o v).down ≡ v.down
  down-log_if true o v = refl
  down-log_if false o v = refl

  after_local-down :
      (t : _) (e : Option Error) (o : T.Identifiable) (v : Vortex T Up Down)
      → (after_local settings Operation.create t e o v).vortex.down ≡ v.down
  after_local-down t (some e) o v = refl
  after_local-down t none o v = down-log_if settings.enable_log o v

  error-after_local :
      (t : _) (e : Option Error) (o : T.Identifiable) (v : Vortex T Up Down)
      → (after_local settings Operation.create t e o v).error ≡ e
  error-after_local t (some e) o v = refl
  error-after_local t none o v = refl

  write_local-kept :
      (mctx : Context T) (other : T.Identifiable) (d : Verdict T.Identifiable)
      (v : Vortex T Up Down)
      → holds other v.down
      → holds other (write_local settings Operation.create mctx d v).vortex.down
  write_local-kept mctx other (stop e o) v h = h
  write_local-kept mctx other (go_on t) v h =
      rw (after_local-down t) (keeping.kept mctx t.written other v.down h)

  commit_local-kept :
      (o other : T.Identifiable) (v : Vortex T Up Down)
      → holds other v.down
      → holds other (commit_local settings Operation.create none o v).vortex.down
  unfolding commit_local
  commit_local-kept o other v h = write_local-kept _ other _ v h

  commit_local-created :
      (o : T.Identifiable) (v : Vortex T Up Down)
      → settings.downstream_reconciler ≡ none
      → IsUnreconciled settings o
      → (commit_local settings Operation.create none o v).error ≡ none
      → holds o (commit_local settings Operation.create none o v).vortex.down
  unfolding commit_local
  commit_local-created o v e u = rw (local_verdict-lem (or_new settings none) o e u) λ done.
      rw (after_local-down (start settings o))
        (keeping.created _ o v.down (sym (error-after_local (start settings o) _ _ _) ∙ done))

module _ {T : Types} {Up Down : Type 0} (access : Access T Up Down)
    (holds : T.Identifiable → Down → Type 0) (keeping : IsKeeping access.settings holds)
    (free : access.settings.downstream_reconciler ≡ none) where
  pub insert_prefetched_data-kept :
      (other : T.Identifiable) (items : List T.Identifiable) (v : Vortex T Up Down)
      → holds other v.down
      → holds other (insert_prefetched_data access items v).1.down
  unfolding insert_prefetched_data
  insert_prefetched_data-kept other [] v h = h
  insert_prefetched_data-kept other (item ∷ items) v h =
      let kept = commit_local-kept access.settings holds keeping item other v h in
      let u = commit_local access.settings Operation.create none item v in
      elim (Option-cases u.error) [
        | inl e ↦
            rw (e, insert_prefetched_data) (insert_prefetched_data-kept other items u.vortex kept)
        | inr (err, e) ↦ rw (e, insert_prefetched_data) kept
      ]

  insert_prefetched_data-cons :
      (item : T.Identifiable) (items : List T.Identifiable) (v : Vortex T Up Down)
      → (commit_local access.settings Operation.create none item v).error ≡ none
      → insert_prefetched_data access (item ∷ items) v
        ≡ insert_prefetched_data access items
            (commit_local access.settings Operation.create none item v).vortex
  unfolding insert_prefetched_data
  insert_prefetched_data-cons item items v e = rw (e, insert_prefetched_data)

  insert_prefetched_data-error :
      (item : T.Identifiable) (items : List T.Identifiable) (v : Vortex T Up Down)
      → (insert_prefetched_data access (item ∷ items) v).0 ≡ none
      → (commit_local access.settings Operation.create none item v).error ≡ none
  unfolding insert_prefetched_data
  insert_prefetched_data-error item items v done =
      elim (Option-cases (commit_local access.settings Operation.create none item v).error) [
        | inl e ↦ e
        | inr (err, e) ↦ cc (rw (e, insert_prefetched_data) at done)
      ]

  pub insert_prefetched_data-Loads :
      (items : List T.Identifiable) (v : Vortex T Up Down)
      → All (IsUnreconciled access.settings) items
      → (insert_prefetched_data access items v).0 ≡ none
      → All (λ o. holds o (insert_prefetched_data access items v).1.down) items
  insert_prefetched_data-Loads [] v u done = tt
  insert_prefetched_data-Loads (item ∷ items) v u done =
      let w = commit_local access.settings Operation.create none item v in
      let e = insert_prefetched_data-error item items v done in
      let same = insert_prefetched_data-cons item items v e in
      subst (λ r. All (λ o. holds o r.1.down) (item ∷ items)) (sym same)
        (
          insert_prefetched_data-kept item items w.vortex
              (commit_local-created access.settings holds keeping item v free u.0 e),
          insert_prefetched_data-Loads items w.vortex u.1 (sym (ap (λ r. r.0) same) ∙ done),
        )
