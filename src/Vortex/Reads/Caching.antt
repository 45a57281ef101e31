-- ===== src/Vortex/Reads/Caching.antt =====
-- What a retrieval leaves in the cache.
use manipulate.Prelude.{◌≢◌, ◌≡◌, refl, ap, ◌∙◌, Bool, true, false, Option, none, some}
use manipulate.Errors.{Error}
use manipulate.Context.{Types, Context}
use manipulate.Vortex.Commit.{Operation, Vortex, Ended, Writer, processor_of}
use manipulate.Vortex.Writes.{should_process, is_nil}
use manipulate.Prelude.Dict.{lookup}
use manipulate.Prelude.{not, ◌&&◌, if◌then◌else◌}
use manipulate.Vortex.Reads.{
  Access, retrieve, retrieve_processed, after_read_down, after_read_up, fall_back, cache,
  cache_error, is_strong_read, retrieve_prefetched, prefetch_by, retrieve_upstream, Prefetcher,
}

-- What the cache relies on in its stores: a read, or the creation of an object, that succeeds is
-- followed by reads that give the same object and change nothing, and no read or creation changes
-- which identity an object has.
pub record IsReadable {T : Types} {Up Down : Type 0} (access : Access T Up Down) : Type 0 where
  pub read_again :
      (mctx : Context T) (o : T.Identifiable) (d : Down)
      → (access.read_down mctx o d).0 ≡ none
      → access.read_down mctx (access.read_down mctx o d).1 (access.read_down mctx o d).2
        ≡ (none, (access.read_down mctx o d).1, (access.read_down mctx o d).2)
  pub read_created :
      (mctx : Context T) (o : T.Identifiable) (d : Down)
      → (access.settings.downstream Operation.create mctx o d).0 ≡ none
      → access.read_down mctx
          (access.settings.downstream Operation.create mctx o d).1
          (access.settings.downstream Operation.create mctx o d).2
        ≡ (
          none,
          (access.settings.downstream Operation.create mctx o d).1,
          (access.settings.downstream Operation.create mctx o d).2,
        )
  pub name_read_down :
      (mctx : Context T) (o : T.Identifiable) (d : Down)
      → access.settings.identity_name (access.read_down mctx o d).1
        ≡ access.settings.identity_name o
  pub name_read_up :
      (mctx : Context T) (o : T.Identifiable) (u : Up)
      → access.settings.identity_name (access.read_up mctx o u).1 ≡ access.settings.identity_name o
  pub name_create :
      (mctx : Context T) (o : T.Identifiable) (d : Down)
      → access.settings.identity_name (access.settings.downstream Operation.create mctx o d).1
        ≡ access.settings.identity_name o

module _ {T : Types} {Up Down : Type 0} (access : Access T Up Down) where
  -- The result is found again by a downstream read, and it has the identity of the object.
  record IsCached (mctx : Context T) (object : T.Identifiable) (r : Ended T Up Down) : Type 0 where
    pub found : access.read_down mctx r.object r.vortex.down ≡ (none, r.object, r.vortex.down)
    pub same_name : access.settings.identity_name r.object ≡ access.settings.identity_name object

  module _ (readable : IsReadable access) (mctx : Context T) where
    cache-IsCached :
        (object o : T.Identifiable) (v : Vortex T Up Down)
        → access.settings.identity_name o ≡ access.settings.identity_name object
        → (cache access mctx o v).error ≡ none
        → IsCached mctx object (cache access mctx o v)
    unfolding cache
    cache-IsCached object o v n done = record {
      found = readable.read_created mctx o v.down (uncached _ done);
      same_name = readable.name_create mctx o v.down ∙ n;
    }
      where
        uncached : (e : Option Error) → cache_error access e ≡ none → e ≡ none
        uncached none h = refl
        uncached (some e) h = cc h

    after_read_up-IsCached :
        (object o : T.Identifiable) (e : Option Error) (v : Vortex T Up Down)
        → access.settings.identity_name o ≡ access.settings.identity_name object
        → (after_read_up access mctx e o v).error ≡ none
        → IsCached mctx object (after_read_up access mctx e o v)
    after_read_up-IsCached object o (some e) v n done = cc done
    after_read_up-IsCached object o none v n done = cache-IsCached object o v n done

    fall_back-IsCached :
        (w : Option (Writer T Up)) (strong : Bool) (object o : T.Identifiable) (e : Error)
        (v : Vortex T Up Down)
        → access.settings.identity_name o ≡ access.settings.identity_name object
        → (fall_back access w strong mctx e o v).error ≡ none
        → IsCached mctx object (fall_back access w strong mctx e o v)
    fall_back-IsCached (some w) true object o e v n done =
        after_read_up-IsCached object _ _ _ (readable.name_read_up mctx o v.up ∙ n) done
    fall_back-IsCached (some w) false object o e v n done = cc done
    fall_back-IsCached none strong object o e v n done = cc done

    after_read_down-IsCached :
        (object o : T.Identifiable) (e : Option Error) (v : Vortex T Up Down)
        → access.settings.identity_name o ≡ access.settings.identity_name object
        → (e ≡ none → access.read_down mctx o v.down ≡ (none, o, v.down))
        → (after_read_down access mctx e o v).error ≡ none
        → IsCached mctx object (after_read_down access mctx e o v)
    after_read_down-IsCached object o none v n again done = record {
      found = again refl;
      same_name = n;
    }
    after_read_down-IsCached object o (some e) v n again done =
        fall_back-IsCached access.settings.upstream (is_strong_read access mctx o) object o e v n
          done

    retrieve_processed-IsCached :
        (object : T.Identifiable) (v : Vortex T Up Down)
        → (retrieve_processed access mctx object v).error ≡ none
        → IsCached mctx object (retrieve_processed access mctx object v)
    unfolding retrieve_processed
    retrieve_processed-IsCached object v done =
        after_read_down-IsCached object _ _ _ (readable.name_read_down mctx object v.down)
          (readable.read_again mctx object v.down) done

  retrieve_processed-cached :
      (mctx : Context T) (object o : T.Identifiable) (v : Vortex T Up Down)
      → access.read_down mctx o v.down ≡ (none, o, v.down)
      → retrieve_processed access mctx o v ≡ record { error = none; object = o; vortex = v }
  unfolding retrieve_processed
  retrieve_processed-cached mctx object o v found =
      ap (λ p. after_read_down access mctx p.0 p.1 (record v { down = p.2 })) found

  should_process-name :
      (mctx : Context T) (o object : T.Identifiable)
      → access.settings.identity_name o ≡ access.settings.identity_name object
      → should_process access.settings mctx o ≡ should_process access.settings mctx object
  unfolding should_process processor_of
  should_process-name mctx o object n =
      ap (λ name. not (is_nil (lookup name access.settings.processors)) && is_nil mctx.parent) n

  prefetch_by-none :
      (p : Option (Prefetcher T Up)) (mctx : Context T) (object : T.Identifiable)
      (v : Vortex T Up Down)
      → p ≡ none
      → prefetch_by access p mctx object v ≡ (none, v)
  prefetch_by-none none mctx object v e = refl
  prefetch_by-none (some p) mctx object v e = cc e

  retrieve-unprefetched :
      (mctx : Context T) (object : T.Identifiable) (v : Vortex T Up Down)
      → access.prefetcher ≡ none
      → should_process access.settings mctx object ≡ true
      → retrieve access (some mctx) object v ≡ retrieve_processed access mctx object v
  unfolding retrieve
  retrieve-unprefetched mctx object v e p =
      ap (retrieve_prefetched access mctx object)
        (prefetch_by-none access.prefetcher mctx object v e)
      ∙ ap
          (λ b.
            if b
            then retrieve_processed access mctx object v
            else retrieve_upstream access access.settings.upstream mctx object v)
          p

  -- Over stores whose reads repeat, without a prefetcher: a `Retrieve` of an object that is
  -- processed which returns no error can be repeated at once on the object that it filled, with
  -- no error, the same object and no change of either store, of the queue or of the log.
  pub retrieve-retrieve :
      IsReadable access
      → (mctx : Context T) (object : T.Identifiable) (v : Vortex T Up Down)
      → access.prefetcher ≡ none
      → should_process access.settings mctx object ≡ true
      → (retrieve access (some mctx) object v).error ≡ none
      → retrieve access
          (some mctx)
          (retrieve access (some mctx) object v).object
          (retrieve access (some mctx) object v).vortex
        ≡ record {
          error = none;
          object = (retrieve access (some mctx) object v).object;
          vortex = (retrieve access (some mctx) object v).vortex;
        }
  retrieve-retrieve readable mctx object v e p =
      rw (retrieve-unprefetched mctx object v e p) λ done.
        let r = retrieve_processed access mctx object v in
        let c = retrieve_processed-IsCached readable mctx object v done in
        retrieve-unprefetched mctx r.object r.vortex e
          (should_process-name mctx r.object object c.same_name ∙ p)
        ∙ retrieve_processed-cached mctx object r.object r.vortex c.found

  -- The upstream is asked only after a downstream read that failed, and for a strong read.
  fall_back-up :
      (w : Option (Writer T Up)) (strong : Bool) (mctx : Context T) (e : Error) (o : T.Identifiable)
      (v : Vortex T Up Down)
      → (fall_back access w strong mctx e o v).vortex.up ≢ v.up
      → strong ≡ true
  fall_back-up none strong mctx e o v changed = absurd (changed refl)
  fall_back-up (some w) false mctx e o v changed = absurd (changed refl)
  fall_back-up (some w) true mctx e o v changed = refl

  after_read_down-up :
      (mctx : Context T) (e : Option Error) (o : T.Identifiable) (v : Vortex T Up Down)
      → (after_read_down access mctx e o v).vortex.up ≢ v.up
      → (e ≢ none) × (is_strong_read access mctx o ≡ true)
  after_read_down-up mctx none o v changed = absurd (changed refl)
  after_read_down-up mctx (some e) o v changed = (
    (λ same. cc same),
    fall_back-up access.settings.upstream (is_strong_read access mctx o) mctx e o v changed,
  )

  -- Without a prefetcher: a `Retrieve` of an object that is processed changes the upstream store
  -- only if the downstream read returned an error and the read is strong.
  retrieve-up :
      (mctx : Context T) (object : T.Identifiable) (v : Vortex T Up Down)
      → access.prefetcher ≡ none
      → should_process access.settings mctx object ≡ true
      → (retrieve access (some mctx) object v).vortex.up ≢ v.up
      → ((access.read_down mctx object v.down).0 ≢ none)
        × (is_strong_read access mctx (access.read_down mctx object v.down).1 ≡ true)
  retrieve-up mctx object v e p =
      rw (retrieve-unprefetched mctx object v e p)
        (unfold retrieve_processed in after_read_down-up mctx _ _ _)
