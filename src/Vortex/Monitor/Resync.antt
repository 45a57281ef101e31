-- ===== src/Vortex/Monitor/Resync.antt =====
-- What a reconnection of the upstream subscriber does to the cache.
use mathlib.Core.Path.{subst}
use manipulate.Prelude.{
  ℕ, ◌≡◌, refl, sym, Option, none, some, List, All, ◌⊎◌, inl, inr, String, ◌<>◌,
}
use manipulate.Errors.{Error, foreign, message}
use manipulate.Context.{Types}
use manipulate.Iter.Collect.{Server}
use manipulate.Push.{reconnection}
use manipulate.Vortex.Commit.{Vortex, Writer}
use manipulate.Vortex.Events.{EventType, Subscriber, push_errors, push_status}
use manipulate.Vortex.Warming.{
  Cache, Refreshed, refreshed, stuck, flush, then_refresh, flush_if, after_flush, flush_prefetcher,
  warm_up_by, wait_for_queue,
}
use manipulate.Vortex.Warming.Insertion.{IsKeeping}
use manipulate.Vortex.Warming.Loading.{Loads, IsServed, warm_from, objects_of, warm_up-Loads}
use manipulate.Vortex.Bulk.{Identity}
use manipulate.Vortex.Monitor.{
  status, Monitored, watching, returned, flushing, after_resync, on_message,
}

module _ {T : Types} {Up Down : Type 0} (c : Cache T Up Down)
    (holds : T.Identifiable → Down → Type 0) where
  then_refresh-Loads :
      (objects : List T.Identifiable) (r : Refreshed T Up Down)
      (next : Vortex T Up Down → Refreshed T Up Down)
      → (r ≡ stuck → ⊥)
      → ((w : Vortex T Up Down) → Loads holds objects (next w))
      → Loads holds objects (then_refresh r next)
  then_refresh-Loads objects stuck next go h = go refl
  then_refresh-Loads objects (refreshed (some e) v) next go h = tt
  then_refresh-Loads objects (refreshed none v) next go h = h v

  after_flush-ends :
      (v : Vortex T Up Down) (p : Option Error × Down) → after_flush c v p ≡ stuck → ⊥
  after_flush-ends v (some e, d) h = cc h
  after_flush-ends v (none, d) h = cc h

  flush_if-ends :
      (f : Option (Down → Option Error × Down)) (sleep : ℕ → Vortex T Up Down → Vortex T Up Down)
      (v : Vortex T Up Down)
      → flush_if c f sleep v ≡ stuck
      → ⊥
  flush_if-ends none sleep v h = cc h
  flush_if-ends (some f) sleep v h =
      after_flush-ends (wait_for_queue c sleep 10 v) (f (wait_for_queue c sleep 10 v).down) h

  -- The monitor goes on: the cache holds the objects and the subscribers get the status, or the
  -- flush, which ended in `r`, returned an error that they get before it.
  abbrev pub Resyncs :
      List (Subscriber T.Identifiable)
      → List T.Identifiable
      → Refreshed T Up Down
      → Monitored T Up Down
      → Type 0
  Resyncs subscribers objects r (watching subscribers' v) =
      (All (λ o. holds o v.down) objects × (subscribers' ≡ push_status reconnection subscribers))
      ⊎ ((e : Error) × (r ≡ refreshed (some e) v)
          × (subscribers'
              ≡ push_status reconnection
                  (push_errors (foreign ("unable to flush: " <> message e)) subscribers)))
  Resyncs subscribers objects r (returned subscribers' v) = ⊥
  Resyncs subscribers objects r (flushing subscribers') = ⊥

  after_resync-Resyncs :
      (type_text : EventType → String) (subscribers : List (Subscriber T.Identifiable))
      (objects : List T.Identifiable) (r : Refreshed T Up Down)
      → Loads holds objects r
      → Resyncs subscribers objects r (after_resync c type_text subscribers r)
  after_resync-Resyncs type_text subscribers objects stuck h = absurd h
  after_resync-Resyncs type_text subscribers objects (refreshed none v) h = inl (h, refl)
  after_resync-Resyncs type_text subscribers objects (refreshed (some e) v) h = inr (e, refl, refl)

module _ {T : Types} {Up Down : Type 0} (c : Cache T Up Down)
    (holds : T.Identifiable → Down → Type 0) (keeping : IsKeeping c.access.settings holds)
    (free : c.access.settings.downstream_reconciler ≡ none) (server : Identity → Server T)
    (ctx : T.GoContext) (fuel : ℕ) (blocks : Identity → List (List T.Identifiable)) where
  flush-Loads :
      (w : Writer T Up) (sleep : ℕ → Vortex T Up Down → Vortex T Up Down) (v : Vortex T Up Down)
      (flush_it : Up → Up)
      → c.access.settings.upstream ≡ some w
      → c.prefetcher ≡ some (warm_from c holds keeping free server ctx fuel blocks, flush_it)
      → All (IsServed c holds keeping free server ctx fuel blocks) c.identities
      → Loads holds (objects_of blocks c.identities) (flush c sleep v)
  unfolding flush
  flush-Loads w sleep v flush_it up p served =
      then_refresh-Loads c holds _ _ (warm_up_by c c.prefetcher)
        (flush_if-ends c holds c.flush_down sleep (flush_prefetcher c c.prefetcher v))
        λ u.
          subst (λ q. Loads holds (objects_of blocks c.identities) (warm_up_by c q u)) (sym p)
            (warm_up-Loads c holds keeping free server ctx fuel blocks w u up served)

  -- With the default prefetcher over an upstream that gives out pages of objects, a downstream
  -- store that holds what was created in it, and no reconciler that holds the objects back: after
  -- a reconnection of the upstream subscriber the monitor goes on, and either the downstream store
  -- holds every object of every page of every processed identity and the subscribers get the
  -- status, or they get an error of the flush and then the status. For an identity one more round
  -- of fuel than it has pages is enough.
  pub reconnection-Resyncs :
      (type_text : EventType → String) (commits : List String) (w : Writer T Up)
      (sleep : ℕ → Vortex T Up Down → Vortex T Up Down)
      (subscribers : List (Subscriber T.Identifiable)) (v : Vortex T Up Down) (flush_it : Up → Up)
      → c.access.settings.upstream ≡ some w
      → c.prefetcher ≡ some (warm_from c holds keeping free server ctx fuel blocks, flush_it)
      → All (IsServed c holds keeping free server ctx fuel blocks) c.identities
      → Resyncs c holds subscribers
          (objects_of blocks c.identities)
          (flush c sleep v)
          (on_message c type_text commits sleep (status reconnection) subscribers v)
  reconnection-Resyncs type_text commits w sleep subscribers v flush_it up p served =
      unfold on_message in
      after_resync-Resyncs c holds type_text subscribers _ (flush c sleep v)
        (flush-Loads w sleep v flush_it up p served)
