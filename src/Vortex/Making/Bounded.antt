-- ===== src/Vortex/Making/Bounded.antt =====
-- The transaction queue of a manipulator that `New` has made.
use manipulate.Prelude.{◌≡◌, []}
use manipulate.Prelude.Dict.{Dict}
use manipulate.Context.{Types}
use manipulate.Vortex.Commit.{Vortex}
use manipulate.Vortex.Warming.{Cache, Refreshed, refreshed, stuck}
use manipulate.Vortex.Making.{Config, Parts, Made, made, cache_of}

module _ {T : Types} {Up Down : Type 0} (c : Cache T Up Down) where
  -- The queue is as it was, if the refresh ends.
  abbrev KeepsQueue : Vortex T Up Down → Refreshed T Up Down → Type 0
  KeepsQueue v stuck = Unit
  KeepsQueue v (refreshed e w) = w.queue ≡ v.queue

module _ {T : Types} {Up Down : Type 0} (parts : Parts T Up Down) where
  -- A manipulator that is made has the configured settings and an empty queue.
  abbrev IsNew : Config T Up Down → Made T Up Down → Type 0
  IsNew cfg (made c v commits identities) = (c ≡ cache_of parts cfg) × (v.queue ≡ [])
  IsNew cfg _ = Unit
