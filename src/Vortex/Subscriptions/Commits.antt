-- ===== src/Vortex/Subscriptions/Commits.antt =====
-- Which identities are committed.
use manipulate.Prelude.{
  ◌≡◌, refl, ◌∙◌, String, Bool, true, false, not, ◌&&◌, ◌||◌, Option, none, some, List, [], ◌∷◌,
  arith, eq_iff, eq_refl,
}
use manipulate.Prelude.{◌==◌, Bool-cases, inl, inr}
use manipulate.Prelude.Dict.{Dict, lookup}
use manipulate.Errors.{ok, panic}
use manipulate.Context.{Types}
use manipulate.Vortex.Commit.{Processor}
use manipulate.Vortex.Subscriptions.{
  contains, delete, keys, commits_on_event, is_processed, commits_of, initial_commits, Filters,
  visit, visit_all, visit_subscribers, update_filter,
}

contains-delete :
    (i j : String) (names : List String)
    → contains (delete i names) j ≡ (not (i == j) && contains names j)
unfolding contains delete
contains-delete i j [] = ground arith
contains-delete i j (name ∷ names) =
    ground (arith, contains-delete i j names, eq_iff name i, eq_iff name j, eq_iff i j)

module _ {T : Types} (processors : Dict (Processor T)) where
  flagged :
      (p : Option (Processor T))
      → (is_processed processors p && commits_on_event processors p) ≡ commits_on_event processors p
  flagged none = refl
  flagged (some cfg) = refl

  abbrev is_unflagged : Option (Processor T) → Bool
  is_unflagged p = is_processed processors p && not (commits_on_event processors p)

  visit_same :
      (i : String) (f : Filters processors) (p : Option (Processor T))
      → contains (visit processors i p f).commits i
        ≡ (contains f.commits i && not (i == i && is_unflagged p))
  unfolding visit
  visit_same i f none = ground arith
  visit_same i f (some cfg) = ground (arith, contains-delete i i f.commits, eq_refl i)

  visit_other :
      (name i : String)
      → (name == i) ≡ false
      → (f : Filters processors) (p : Option (Processor T)) (b : Bool)
      → contains (visit processors name p f).commits i
        ≡ (contains f.commits i && not (name == i && b))
  unfolding visit
  visit_other name i other f none b = ground (arith, other)
  visit_other name i other f (some cfg) b = ground (arith, contains-delete name i f.commits, other)

  contains-keys :
      (m : Dict (Processor T)) (i : String) → contains (keys m) i ≡ is_processed m (lookup i m)
  unfolding contains keys lookup
  contains-keys [] i = refl
  contains-keys ((k, v) ∷ m) i = ground (arith, contains-keys m i)

  contains-commits_of :
      (names : List String) (i : String)
      → contains (commits_of processors names) i
        ≡ (contains names i && commits_on_event processors (lookup i processors))
  unfolding contains commits_of
  contains-commits_of [] i = refl
  contains-commits_of (name ∷ names) i = elim (Bool-cases (name == i)) [
    | inl same ↦
        rw ((eq_iff name i).0 same) (ground (arith, contains-commits_of names i, eq_iff i i))
    | inr other ↦ ground (arith, contains-commits_of names i, other)
  ]

  flagged_processed :
      (i : String)
      → (contains (keys processors) i && commits_on_event processors (lookup i processors))
        ≡ commits_on_event processors (lookup i processors)
  flagged_processed i = rw (contains-keys processors i) (flagged (lookup i processors))

  -- Before any subscriber sets a filter, the events of an identity are committed exactly if its
  -- processor has the flag CommitOnEvent.
  contains-initial_commits :
      (i : String)
      → contains (initial_commits processors) i ≡ commits_on_event processors (lookup i processors)
  contains-initial_commits i =
      unfold initial_commits in contains-commits_of (keys processors) i ∙ flagged_processed i

  -- Some subscriber has the identity in its filter.
  abbrev pub subscribed : List (Option (List String)) → String → Bool
  subscribed [] i = false
  subscribed (none ∷ subscribers) i = subscribed subscribers i
  subscribed (some filter ∷ subscribers) i = contains filter i || subscribed subscribers i

  -- The identity may be taken from the commits.
  abbrev droppable : String → Bool
  droppable i = is_unflagged (lookup i processors)

  commits-visit :
      (name i : String) (f : Filters processors)
      → contains (visit processors name (lookup name processors) f).commits i
        ≡ (contains f.commits i && not (name == i && droppable i))
  unfolding visit
  commits-visit name i f = elim (Bool-cases (name == i)) [
    | inl same ↦ rw ((eq_iff name i).0 same) (visit_same i f (lookup i processors))
    | inr other ↦ visit_other name i other f (lookup name processors) (droppable i)
  ]

  commits-visit_all :
      (names : List String) (i : String) (f : Filters processors)
      → contains (visit_all processors names f).commits i
        ≡ (contains f.commits i && not (contains names i && droppable i))
  unfolding visit_all contains
  commits-visit_all [] i f = ground arith
  commits-visit_all (name ∷ names) i f =
      let f' = visit processors name (lookup name processors) f in
      ground (arith, commits-visit name i f, commits-visit_all names i f')

  commits-visit_subscribers :
      (subscribers : List (Option (List String))) (i : String) (f g : Filters processors)
      → visit_subscribers processors subscribers f ≡ ok g
      → contains g.commits i
        ≡ (contains f.commits i && not (subscribed subscribers i && droppable i))
  unfolding visit_subscribers
  commits-visit_subscribers [] i f g e = ground (arith, e)
  commits-visit_subscribers (none ∷ subscribers) i f g e = cc e
  commits-visit_subscribers (some filter ∷ subscribers) i f g e = ground (
    arith,
    commits-visit_all filter i f,
    commits-visit_subscribers subscribers i (visit_all processors filter f) g e,
  )

  -- When `updateFilter` returns, an identity is committed exactly if it has a processor and, where
  -- a subscriber has the identity in its filter, that processor has the flag CommitOnEvent.
  pub commits-update_filter :
      (subscribers : List (Option (List String))) (i : String) (f : Filters processors)
      → update_filter processors subscribers ≡ ok f
      → contains f.commits i ≡ (
          is_processed processors (lookup i processors)
          && (not (subscribed subscribers i) || commits_on_event processors (lookup i processors)))
  commits-update_filter subscribers i f =
      unfold update_filter in
      λ e. ground (arith, commits-visit_subscribers subscribers i _ f e, contains-keys processors i)

  -- Some subscriber has no filter: it was made and not started.
  abbrev unfiltered : List (Option (List String)) → Bool
  unfiltered [] = false
  unfiltered (none ∷ subscribers) = true
  unfiltered (some filter ∷ subscribers) = unfiltered subscribers

  visit_subscribers-panic :
      (subscribers : List (Option (List String))) (f : Filters processors)
      → unfiltered subscribers ≡ true
      → visit_subscribers processors subscribers f ≡ panic
  unfolding visit_subscribers
  visit_subscribers-panic [] f h = cc h
  visit_subscribers-panic (none ∷ subscribers) f h = refl
  visit_subscribers-panic (some filter ∷ subscribers) f h =
      visit_subscribers-panic subscribers (visit_all processors filter f) h

  -- `updateFilter` panics wherever some subscriber has no filter yet.
  update_filter-panic :
      (subscribers : List (Option (List String)))
      → unfiltered subscribers ≡ true
      → update_filter processors subscribers ≡ panic
  update_filter-panic subscribers h =
      unfold update_filter in visit_subscribers-panic subscribers _ h
