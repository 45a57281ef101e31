-- ===== src/Vortex/Subscriptions.antt =====
-- manipvortex/manipulator.go: the identities whose upstream events are committed downstream. `New`
-- sets them once (`initial_commits`), and `updateFilter` sets them anew whenever a subscriber
-- changes its filter. A filter is the list of the identities in its map `Identities`; a subscriber
-- that was made and not started has none.
pub mod Commits
use manipulate.Prelude.{
  ℕ, ◌≡◌, ◌≢◌, refl, ◌∙◌, ap, ◌↔◌, String, Bool, true, false, not, ◌&&◌, ◌||◌, Option, none, some,
  List, [], ◌∷◌, ◌++◌, arith, eq_iff, eq_refl,
}
use manipulate.Prelude.{if◌then◌else◌, ◌==◌, Bool-cases, inl, inr, Option-cases}
use manipulate.Prelude.Dict.{Dict, lookup}
use manipulate.Errors.{Result, ok, err, panic, ◌>>=◌}
use manipulate.Context.{Types}
use manipulate.Vortex.Commit.{Processor}

-- A set of names: map[string]struct{}.
unfoldable pub contains : List String → String → Bool
contains [] i = false
contains (name ∷ names) i = name == i || contains names i

unfoldable pub delete : String → List String → List String
delete i [] = []
delete i (name ∷ names) = let rest = delete i names in if name == i then rest else name ∷ rest

unfoldable pub keys {ℓ} : {V : Type ℓ} → Dict V → List String
keys [] = []
keys ((k, v) ∷ m) = k ∷ keys m

module _ {T : Types} (processors : Dict (Processor T)) where
  abbrev pub commits_on_event : Option (Processor T) → Bool
  commits_on_event none = false
  commits_on_event (some cfg) = cfg.commit_on_event

  abbrev pub is_processed : Option (Processor T) → Bool
  is_processed none = false
  is_processed (some cfg) = true

  -- The loop of `New` over the processors.
  unfoldable pub commits_of : List String → List String
  commits_of [] = []
  commits_of (identity ∷ identities) =
      let rest = commits_of identities in
      if commits_on_event (lookup identity processors) then identity ∷ rest else rest

  unfoldable pub initial_commits : List String
  unfolding commits_of keys
  initial_commits = commits_of (keys processors)

  -- The new set of identities to commit, and the identities of the filter for the upstream.
  pub record Filters : Type 0 where
    pub commits : List String
    pub identities : List String

  -- The body of the loop over one subscriber's identities.
  unfoldable pub visit : String → Option (Processor T) → Filters → Filters
  visit identity (some cfg) f =
      if cfg.commit_on_event then f else record f { commits = delete identity f.commits }
  visit identity none f = record f { identities = identity ∷ f.identities }

  unfoldable pub visit_all : List String → Filters → Filters
  unfolding visit
  visit_all [] f = f
  visit_all (identity ∷ identities) f =
      visit_all identities (visit identity (lookup identity processors) f)

  -- The loop over the subscribers: one with no filter is a nil pointer that is read.
  unfoldable pub visit_subscribers : List (Option (List String)) → Filters → Result Filters
  unfolding visit_all
  visit_subscribers [] f = ok f
  visit_subscribers (none ∷ subscribers) f = panic
  visit_subscribers (some filter ∷ subscribers) f =
      visit_subscribers subscribers (visit_all filter f)

  -- `updateFilter` where there is an upstream subscriber; without one it does nothing.
  unfoldable pub update_filter : List (Option (List String)) → Result Filters
  unfolding visit_subscribers keys
  update_filter subscribers =
      visit_subscribers subscribers
        (record { commits = keys processors; identities = keys processors })
