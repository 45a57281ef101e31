-- ===== src/Vortex/Reads.antt =====
-- manipvortex/manipulator.go: `Retrieve` and `insertPrefetchedData`. What a read sets in the
-- context is not modelled. The prefetcher is a parameter; its nil answer is the empty list.
pub mod Caching
use manipulate.Prelude.{
  String, ◌<>◌, Bool, true, false, Option, none, some, List, [], ◌∷◌, if◌then◌else◌,
}
use manipulate.Errors.{Error, foreign, message}
use manipulate.Context.{Types, Context, derive, ReadConsistency}
use manipulate.Vortex.Strength.{is_strong_read_consistency}
use manipulate.Vortex.Commit.{
  Operation, Processor, Settings, Vortex, Ended, Writer, processor_of, commit_local,
}
use manipulate.Vortex.Writes.{should_process, context_or_new}

-- A read of a manipulator: its error, and the object that it fills.
abbrev pub Reader : Types → Type 0 → Type 0
Reader T S = Context T → T.Identifiable → S → Option Error × T.Identifiable × S

-- What a prefetcher answers.
pub data Prefetched (Object : Type 0) : Type 0 where
  unable : Error → Prefetched Object
  fetched : List Object → Prefetched Object

abbrev pub Prefetcher : Types → Type 0 → Type 0
Prefetcher T S = Context T → T.Identifiable → S → Prefetched T.Identifiable × S

-- What a read uses beside the settings. `identity_text` prints an object's identity.
pub record Access (T : Types) (Up Down : Type 0) : Type 0 where
  pub settings : Settings T Up Down
  pub read_up : Reader T Up
  pub read_down : Reader T Down
  pub prefetcher : Option (Prefetcher T Up)
  pub identity_text : T.Identifiable → String

module _ {T : Types} {Up Down : Type 0} (access : Access T Up Down) where
  open access use {settings, read_up, read_down, prefetcher, identity_text}

  -- Commits the objects locally, up to the first error.
  unfoldable pub insert_prefetched_data :
      List T.Identifiable → Vortex T Up Down → Option Error × Vortex T Up Down
  insert_prefetched_data [] v = (none, v)
  insert_prefetched_data (item ∷ items) v =
      let u = commit_local settings Operation.create none item v in
      elim u.error [ some e ↦ (some e, u.vortex) | none ↦ insert_prefetched_data items u.vortex ]

  abbrev prefetch_error : String → T.Identifiable → Error → Error
  prefetch_error what object e = foreign (
      "unable to "
      <> what
      <> " data for retrieve operation for '"
      <> identity_text object
      <> "': "
      <> message e)

  abbrev after_insert :
      T.Identifiable → Option Error × Vortex T Up Down → Option Error × Vortex T Up Down
  after_insert object (some e, v) = (some (prefetch_error "insert prefetched" object e), v)
  after_insert object (none, v) = (none, v)

  abbrev after_prefetch :
      T.Identifiable
      → Prefetched T.Identifiable
      → Vortex T Up Down
      → Option Error × Vortex T Up Down
  after_prefetch object (unable e) v = (some (prefetch_error "prefetch" object e), v)
  after_prefetch object (fetched items) v = after_insert object (insert_prefetched_data items v)

  -- The prefetching that `Retrieve` starts with, if there is a prefetcher.
  abbrev pub prefetch_by :
      Option (Prefetcher T Up)
      → Context T
      → T.Identifiable
      → Vortex T Up Down
      → Option Error × Vortex T Up Down
  prefetch_by none mctx object v = (none, v)
  prefetch_by (some prefetch) mctx object v =
      let (answer, up) = prefetch (derive mctx []) object v.up in
      after_prefetch object answer (record v { up = up })

  abbrev pub read_consistency_of : Option (Processor T) → Option ReadConsistency
  read_consistency_of none = none
  read_consistency_of (some cfg) = some cfg.read_consistency

  unfoldable pub is_strong_read : Context T → T.Identifiable → Bool
  unfolding is_strong_read_consistency processor_of
  is_strong_read mctx object =
      is_strong_read_consistency (some mctx) (read_consistency_of (processor_of settings object))
        settings.default_read_consistency

  -- The update of the cache with the object that the upstream has.
  abbrev pub cache_error : Option Error → Option Error
  cache_error none = none
  cache_error (some e) = some (foreign ("unable to update local cache from backend: " <> message e))

  unfoldable pub cache : Context T → T.Identifiable → Vortex T Up Down → Ended T Up Down
  cache mctx object v =
      let (e, o, down) = settings.downstream Operation.create mctx object v.down in
      record { error = cache_error e; object = o; vortex = record v { down = down } }

  -- After the upstream read: its error, or the update of the cache.
  abbrev pub after_read_up :
      Context T → Option Error → T.Identifiable → Vortex T Up Down → Ended T Up Down
  after_read_up mctx (some e) object v = record { error = some e; object = object; vortex = v }
  after_read_up mctx none object v = cache mctx object v

  abbrev pub fall_back :
      Option (Writer T Up)
      → Bool
      → Context T
      → Error
      → T.Identifiable
      → Vortex T Up Down
      → Ended T Up Down
  fall_back (some upstream) true mctx e object v =
      let (e', o, up) = read_up mctx object v.up in after_read_up mctx e' o (record v { up = up })
  fall_back _ _ mctx e object v = record { error = some e; object = object; vortex = v }

  -- After the downstream read: done, or the upstream if there is one and the read is strong. The
  -- consistency is that of the object as the read left it.
  abbrev pub after_read_down :
      Context T → Option Error → T.Identifiable → Vortex T Up Down → Ended T Up Down
  after_read_down mctx none object v = record { error = none; object = object; vortex = v }
  after_read_down mctx (some e) object v =
      fall_back settings.upstream (is_strong_read mctx object) mctx e object v

  unfoldable pub retrieve_processed :
      Context T → T.Identifiable → Vortex T Up Down → Ended T Up Down
  unfolding cache
  retrieve_processed mctx object v =
      let (e, o, down) = read_down mctx object v.down in
      after_read_down mctx e o (record v { down = down })

  abbrev pub retrieve_upstream :
      Option (Writer T Up) → Context T → T.Identifiable → Vortex T Up Down → Ended T Up Down
  retrieve_upstream none mctx object v = record { error = none; object = object; vortex = v }
  retrieve_upstream (some upstream) mctx object v =
      let (e, o, up) = read_up mctx object v.up in
      record { error = e; object = o; vortex = record v { up = up } }

  abbrev pub retrieve_prefetched :
      Context T → T.Identifiable → Option Error × Vortex T Up Down → Ended T Up Down
  retrieve_prefetched mctx object (some e, v) = record {
    error = some e;
    object = object;
    vortex = v;
  }
  retrieve_prefetched mctx object (none, v) =
      if should_process settings mctx object
      then retrieve_processed mctx object v
      else retrieve_upstream settings.upstream mctx object v

  unfoldable pub retrieve : Option (Context T) → T.Identifiable → Vortex T Up Down → Ended T Up Down
  retrieve mctx object v =
      let c = context_or_new settings mctx in
      retrieve_prefetched c object (prefetch_by prefetcher c object v)
