-- ===== src/Vortex/Warming/Loading.antt =====
-- A warm up with the default prefetcher, over upstream manipulators that give out pages.
use manipulate.Prelude.{
  ℕ, ◌<◌, ◌≡◌, refl, sym, ap, true, Option, none, some, List, [], ◌∷◌, ◌++◌, All, length,
}
use manipulate.Prelude.Int.{pos}
use mathlib.Core.Path.{subst}
use manipulate.Errors.{Error}
use manipulate.Context.{Types, new_context}
use manipulate.Context.Options.{option_recursive}
use manipulate.Iter.Collect.{Server, serve, Pages, concat, iter_func-Pages}
use manipulate.Vortex.Commit.{Vortex, Writer}
use manipulate.Vortex.Reads.{fetched}
use manipulate.Vortex.Bulk.{Identity}
use manipulate.Vortex.Warming.{
  warmed, WarmUp, after_iteration, default_warm_up, Cache, Refreshed, refreshed, stuck,
  then_refresh, after_warm_insert, warm_each, warm_if, warm_up,
}
use manipulate.Vortex.Warming.Insertion.{
  IsKeeping, IsUnreconciled, insert_prefetched_data-kept, insert_prefetched_data-Loads,
}

default_warm_up-Pages :
    {T : Types} {S : Type 0} (server : Identity → Server T) (ctx : T.GoContext) (fuel : ℕ)
    (identity : Identity) {blocks : List (List T.Identifiable)} (s : S)
    → Pages T (server identity) (pos 1000) "" blocks
    → length blocks < fuel
    → default_warm_up {T = T} fuel ctx (λ i. serve (server i)) identity s
      ≡ warmed (fetched (concat blocks)) s
unfolding default_warm_up
default_warm_up-Pages {T} server ctx fuel identity s p h = ap (after_iteration T identity) (
    iter_func-Pages (server identity) ctx (some (new_context ctx (option_recursive true ∷ [])))
      (pos 1000) fuel s p h)

-- The objects of all pages of some identities.
unfoldable pub objects_of : {A : Type 0} → (Identity → List (List A)) → List Identity → List A
objects_of blocks [] = []
objects_of blocks (identity ∷ rest) = concat (blocks identity) ++ objects_of blocks rest

All-append : {A : Type 0} (P : A → Type 0) (xs ys : List A) → All P xs → All P ys → All P (xs ++ ys)
All-append P [] ys h k = k
All-append P (x ∷ xs) ys h k = (h.0, All-append P xs ys h.1 k)

All-weaken :
    {A : Type 0} (P Q : A → Type 0) → ((a : A) → P a → Q a) → (xs : List A) → All P xs → All Q xs
All-weaken P Q f [] h = tt
All-weaken P Q f (x ∷ xs) h = (f x h.0, All-weaken P Q f xs h.1)

-- It ends, and with no error only if the downstream store then holds the objects.
abbrev pub Loads :
    {T : Types} {Up Down : Type 0}
    → (T.Identifiable → Down → Type 0)
    → List T.Identifiable
    → Refreshed T Up Down
    → Type 0
Loads holds objects stuck = ⊥
Loads holds objects (refreshed (some e) v) = Unit
Loads holds objects (refreshed none v) = All (λ o. holds o v.down) objects

module _ {T : Types} {Up Down : Type 0} (c : Cache T Up Down)
    (holds : T.Identifiable → Down → Type 0) (keeping : IsKeeping c.access.settings holds)
    (free : c.access.settings.downstream_reconciler ≡ none) where
  -- What was held before a refresh is held after it.
  Loads-append :
      (xs ys : List T.Identifiable) (r : Refreshed T Up Down)
      → Loads holds xs r
      → Loads holds ys r
      → Loads holds (xs ++ ys) r
  Loads-append xs ys stuck h k = h
  Loads-append xs ys (refreshed (some e) v) h k = tt
  Loads-append xs ys (refreshed none v) h k = All-append (λ o. holds o v.down) xs ys h k

  -- After the insertion of what was fetched for one identity.
  then_refresh-Loads :
      (objects items : List T.Identifiable) (identity : Identity)
      (p : Option Error × Vortex T Up Down) (next : Vortex T Up Down → Refreshed T Up Down)
      → (p.0 ≡ none → All (λ o. holds o p.1.down) items)
      → ((w : Vortex T Up Down) → All (λ o. holds o w.down) items → Loads holds objects (next w))
      → Loads holds objects (then_refresh (after_warm_insert c identity p) next)
  then_refresh-Loads objects items identity (some e, v) next h k = tt
  then_refresh-Loads objects items identity (none, v) next h k = k v (h refl)

  module _ (server : Identity → Server T) (ctx : T.GoContext) (fuel : ℕ)
      (blocks : Identity → List (List T.Identifiable)) where
    -- The pages of an identity, which the fuel covers, of objects that no reconciler holds back.
    abbrev pub IsServed : Identity → Type 0
    IsServed i =
        Pages T (server i) (pos 1000) "" (blocks i)
        × (length (blocks i) < fuel)
        × All (IsUnreconciled c.access.settings) (concat (blocks i))

    abbrev pub warm_from : WarmUp T Up
    warm_from = default_warm_up {T = T} fuel ctx (λ i. serve (server i))

    warm_each-kept :
        (held : List T.Identifiable) (identities : List Identity) (v : Vortex T Up Down)
        → All IsServed identities
        → All (λ o. holds o v.down) held
        → Loads holds held (warm_each c warm_from identities v)
    unfolding warm_each
    warm_each-kept held [] v served h = h
    warm_each-kept held (i ∷ rest) v served h =
        rw (default_warm_up-Pages server ctx fuel i v.up served.0.0 served.0.1) (
          then_refresh-Loads held held i _ _
            (λ done.
              All-weaken (λ o. holds o v.down) _
                (λ o k.
                  insert_prefetched_data-kept c.access holds keeping free o (concat (blocks i)) v k)
                held h)
            (λ w k. warm_each-kept held rest w served.1 k))

    warm_each-Loads :
        (identities : List Identity) (v : Vortex T Up Down)
        → All IsServed identities
        → Loads holds (objects_of blocks identities) (warm_each c warm_from identities v)
    unfolding warm_each objects_of
    warm_each-Loads [] v served = tt
    warm_each-Loads (i ∷ rest) v served =
        rw (default_warm_up-Pages server ctx fuel i v.up served.0.0 served.0.1) (
          then_refresh-Loads _ (concat (blocks i)) i _ _
            (insert_prefetched_data-Loads c.access holds keeping free (concat (blocks i)) v
              served.0.2)
            (λ w k.
              Loads-append (concat (blocks i)) (objects_of blocks rest)
                (warm_each c warm_from rest w)
                (warm_each-kept (concat (blocks i)) rest w served.1 k)
                (warm_each-Loads rest w served.1)))

    -- Over an upstream that gives out pages of objects, and a downstream store that holds what was
    -- created in it, where no reconciler holds the objects back: a warm up by the default
    -- prefetcher ends, and if it ends without an error, the downstream store holds every object of
    -- every page of every processed identity. For an identity one more round of fuel than it has
    -- pages is enough.
    pub warm_up-Loads :
        (w : Writer T Up) (v : Vortex T Up Down)
        → c.access.settings.upstream ≡ some w
        → All IsServed c.identities
        → Loads holds (objects_of blocks c.identities) (warm_up c warm_from v)
    unfolding warm_up
    warm_up-Loads w v e served =
        subst (λ u. Loads holds (objects_of blocks c.identities) (warm_if c u warm_from v)) (sym e)
          (warm_each-Loads c.identities v served)
