-- ===== src/Vortex/Warming.antt =====
-- manipvortex/manipulator.go: `warmUp` and `Flush`; manipvortex/prefetcher.go: the default
-- prefetcher. The processors are walked in one order, which Go leaves open. What a prefetcher keeps
-- is part of the upstream's state. The sleeps of `Flush` last a second each.
pub mod Insertion
pub mod Loading
use manipulate.Prelude.{
  ℕ, zero, suc, String, ◌<>◌, Bool, true, false, Option, none, some, List, [], ◌∷◌,
}
use manipulate.Prelude.Int.{pos}
use manipulate.Errors.{Error, foreign, message}
use manipulate.Context.{Types, Context, new_context}
use manipulate.Context.Options.{option_recursive}
use manipulate.Iter.{
  RetrieveMany, Outcome, returned, running, Collecting, append_block, beside, iter_func,
}
use manipulate.Vortex.Commit.{Writer, Transaction, Vortex}
use manipulate.Vortex.Reads.{Access, Prefetched, unable, fetched, insert_prefetched_data}
use manipulate.Vortex.Bulk.{Identity}

-- What `WarmUp` of a prefetcher answers. It may also go on forever.
pub data Warmed (Object S : Type 0) : Type 0 where
  warmed : Prefetched Object → S → Warmed Object S
  endless : Warmed Object S

abbrev pub WarmUp : Types → Type 0 → Type 0
WarmUp T S = Identity → S → Warmed T.Identifiable S

abbrev pub after_iteration :
    (T : Types) {S : Type 0} → Identity → Outcome (Collecting T S) → Warmed T.Identifiable S
after_iteration T identity (returned none s) = warmed (fetched s.collected) s.state
after_iteration T identity (returned (some e) s) =
    warmed
      (unable (foreign ("unable to warm up identity '" <> identity.name <> "': " <> message e)))
      s.state
after_iteration T identity (running s) = endless

-- `WarmUp` of the default prefetcher: all objects of the identity, in blocks of 1000.
unfoldable pub default_warm_up :
    {T : Types} {S : Type 0} → ℕ → T.GoContext → (Identity → RetrieveMany T S) → WarmUp T S
unfolding iter_func
default_warm_up {T} {S} fuel ctx retrieve identity s = after_iteration T identity (
    iter_func fuel ctx (beside (retrieve identity)) []
      (some (new_context ctx (option_recursive true ∷ []))) (append_block T S) (pos 1000)
      (record { state = s; collected = [] }))

-- What `warmUp` and `Flush` use beside the access to single objects. The prefetcher is its `WarmUp`
-- and its `Flush`; `flush_down` is there if the downstream manipulator can be flushed.
pub record Cache (T : Types) (Up Down : Type 0) : Type 0 where
  pub access : Access T Up Down
  pub identities : List Identity
  pub identity_text : Identity → String
  pub prefetcher : Option (WarmUp T Up × (Up → Up))
  pub flush_down : Option (Down → Option Error × Down)

-- How a warm up or a flush ends, if it does.
pub data Refreshed (T : Types) (Up Down : Type 0) : Type 0 where
  refreshed : Option Error → Vortex T Up Down → Refreshed T Up Down
  stuck : Refreshed T Up Down

abbrev pub then_refresh :
    {T : Types} {Up Down : Type 0}
    → Refreshed T Up Down
    → (Vortex T Up Down → Refreshed T Up Down)
    → Refreshed T Up Down
then_refresh stuck next = stuck
then_refresh (refreshed (some e) v) next = refreshed (some e) v
then_refresh (refreshed none v) next = next v

module _ {T : Types} {Up Down : Type 0} (c : Cache T Up Down) where
  open c use {access, identities, identity_text, prefetcher, flush_down}

  -- `close` is the quote behind the identity, which one of the two messages lacks.
  abbrev warm_error : String → String → Identity → Error → Error
  warm_error what close identity e = foreign (
      "unable to "
      <> what
      <> " '"
      <> identity_text identity
      <> close
      <> " for warm up operation: "
      <> message e)

  abbrev pub after_warm_insert : Identity → Option Error × Vortex T Up Down → Refreshed T Up Down
  after_warm_insert identity (some e, v) =
      refreshed (some (warm_error "insert prefetched" "'" identity e)) v
  after_warm_insert identity (none, v) = refreshed none v

  abbrev pub after_warmed :
      Identity → Vortex T Up Down → Warmed T.Identifiable Up → Refreshed T Up Down
  after_warmed identity v endless = stuck
  after_warmed identity v (warmed (unable e) up) =
      refreshed (some (warm_error "prefetch" "" identity e)) (record v { up = up })
  after_warmed identity v (warmed (fetched items) up) =
      after_warm_insert identity (insert_prefetched_data access items (record v { up = up }))

  -- The loop over the processors.
  unfoldable pub warm_each : WarmUp T Up → List Identity → Vortex T Up Down → Refreshed T Up Down
  warm_each warm [] v = refreshed none v
  warm_each warm (identity ∷ rest) v =
      then_refresh (after_warmed identity v (warm identity v.up)) λ w. warm_each warm rest w

  abbrev pub warm_if : Option (Writer T Up) → WarmUp T Up → Vortex T Up Down → Refreshed T Up Down
  warm_if none warm v = refreshed none v
  warm_if (some upstream) warm v = warm_each warm identities v

  -- Where there is a prefetcher.
  unfoldable pub warm_up : WarmUp T Up → Vortex T Up Down → Refreshed T Up Down
  unfolding warm_each
  warm_up warm v = warm_if access.settings.upstream warm v

  abbrev pub warm_up_by : Option (WarmUp T Up × (Up → Up)) → Vortex T Up Down → Refreshed T Up Down
  warm_up_by none v = refreshed none v
  warm_up_by (some (warm, flush)) v = warm_up warm v

  -- The loop that waits while transactions are queued, for ten seconds at most: `sleep n` is what
  -- becomes of the state in the second in which `n` of them are left.
  abbrev pub is_empty : List (Transaction T) → Bool
  is_empty [] = true
  is_empty (t ∷ queue) = false

  unfoldable pub wait_for_queue :
      (ℕ → Vortex T Up Down → Vortex T Up Down) → ℕ → Vortex T Up Down → Vortex T Up Down
  wait_for_queue sleep zero v = v
  wait_for_queue sleep (suc seconds) v = elim (is_empty v.queue) [
    | true ↦ v
    | false ↦ wait_for_queue sleep seconds (sleep seconds v)
  ]

  abbrev pub after_flush : Vortex T Up Down → Option Error × Down → Refreshed T Up Down
  after_flush v (some e, down) =
      refreshed (some (foreign ("unable to flush the datastore: " <> message e)))
        (record v { down = down })
  after_flush v (none, down) = refreshed none (record v { down = down })

  abbrev pub flush_if :
      Option (Down → Option Error × Down)
      → (ℕ → Vortex T Up Down → Vortex T Up Down)
      → Vortex T Up Down
      → Refreshed T Up Down
  flush_if none sleep v = refreshed none v
  flush_if (some flush) sleep v = let w = wait_for_queue sleep 10 v in after_flush w (flush w.down)

  abbrev pub flush_prefetcher :
      Option (WarmUp T Up × (Up → Up)) → Vortex T Up Down → Vortex T Up Down
  flush_prefetcher none v = v
  flush_prefetcher (some (warm, flush)) v = record v { up = flush v.up }

  unfoldable pub flush :
      (ℕ → Vortex T Up Down → Vortex T Up Down) → Vortex T Up Down → Refreshed T Up Down
  unfolding wait_for_queue warm_up
  flush sleep v =
      then_refresh (flush_if flush_down sleep (flush_prefetcher prefetcher v))
        λ w. warm_up_by prefetcher w
